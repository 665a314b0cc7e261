-- ===== src/Validation/Accepts.antt =====
-- About types/validation.rs: what the checks accept.
use Prim.Native.Char.{Char}
use Prim.Native.String.{len}
use text.Mathlib.TextPositions.{len-append}
use lclq.Common.{
  ◌≤◌, String, ◌≡◌, refl, ap, ◌∙◌, ◌↔◌, ◌⊎◌, inl, inr, Bool, true, false, none, arith, Option-cases,
}
use lclq.Common.Chars.{
  is_ascii_alphabetic, strip_suffix, all_chars, first_bad-eq-none_iff, all_chars-append, first_is,
  append_of_strip_suffix, strip_suffix-append,
}
use lclq.Common.Text.{◌<>◌}
use lclq.Error.{invalid_topic_id, ValidationError, ok}
use lclq.Validation.{
  is_queue_name_char, validate_queue_name_chars, validate_sqs_queue_name, is_id_char, check_first,
  check_id_chars, validate_pubsub_id, validate_pubsub_topic_id,
}

module _ (is_alphanumeric : Char → Bool) where
  validate_queue_name_chars_iff :
      (name : String)
      → (validate_queue_name_chars is_alphanumeric name ≡ ok tt)
        ↔ (all_chars (is_queue_name_char is_alphanumeric) name ≡ true)
  unfolding validate_queue_name_chars
  validate_queue_name_chars_iff name =
      let good = first_bad-eq-none_iff (is_queue_name_char is_alphanumeric) name in
      (λ h. ground (arith, good.0), λ h. ground (arith, good.1))

  -- What a queue name is: for a standard queue, and for a FIFO queue with a base name.
  pub record IsStandardName (name : String) : Type 0 where
    pub not_empty : 1 ≤ len name
    pub short : len name ≤ 80
    pub good : all_chars (is_queue_name_char is_alphanumeric) name ≡ true

  pub record IsFifoName (name : String) : Type 0 where
    pub base : String
    pub suffix : name ≡ base <> ".fifo"
    pub not_empty : 1 ≤ len base
    pub short : len base ≤ 75
    pub good : all_chars (is_queue_name_char is_alphanumeric) base ≡ true

  no_suffix :
      (is_alphanumeric "." ≡ false)
      → (name : String) → all_chars (is_queue_name_char is_alphanumeric) name ≡ true
      → strip_suffix ".fifo" name ≡ none
  unfolding all_chars
  no_suffix point name good = elim (Option-cases (strip_suffix ".fifo" name)) [
    | inl e ↦ e
    | inr (base, e) ↦
        let split = all_chars-append (is_queue_name_char is_alphanumeric) base ".fifo" in
        let whole =
          ap (all_chars (is_queue_name_char is_alphanumeric))
            (append_of_strip_suffix ".fifo" name base e) in
        absurd (ground arith)
  ]

  standard_name_accepted :
      (is_alphanumeric "." ≡ false)
      → (name : String) → IsStandardName name
      → validate_sqs_queue_name is_alphanumeric name ≡ ok tt
  unfolding validate_sqs_queue_name
  standard_name_accepted point name s =
      let e = no_suffix point name s.good in
      let c = (validate_queue_name_chars_iff name).1 s.good in
      let n = s.not_empty in let k = s.short in ground arith

  fifo_name_accepted :
      (name : String) → IsFifoName name → validate_sqs_queue_name is_alphanumeric name ≡ ok tt
  unfolding validate_sqs_queue_name
  fifo_name_accepted name f =
      let e = ap (strip_suffix ".fifo") f.suffix ∙ strip_suffix-append ".fifo" f.base in
      let l = ap len f.suffix ∙ len-append f.base ".fifo" in
      let c = (validate_queue_name_chars_iff f.base).1 f.good in
      let n = f.not_empty in let k = f.short in ground arith

  -- If the point is not alphanumeric, a queue name is accepted exactly if it is a standard name of
  -- 1 to 80 bytes or a base name of 1 to 75 bytes with the suffix .fifo, with accepted characters.
  pub validate_sqs_queue_name_iff :
      (is_alphanumeric "." ≡ false)
      → (name : String)
      → (validate_sqs_queue_name is_alphanumeric name ≡ ok tt)
        ↔ (IsStandardName name ⊎ IsFifoName name)
  unfolding validate_sqs_queue_name
  validate_sqs_queue_name_iff point name = (
    λ h. elim (Option-cases (strip_suffix ".fifo" name)) [
      | inl e ↦ inl (record {
        not_empty = ground arith;
        short = ground arith;
        good = (validate_queue_name_chars_iff name).0 (ground arith);
      })
      | inr (base, e) ↦ inr (record {
        base = base;
        suffix = append_of_strip_suffix ".fifo" name base e;
        not_empty = ground arith;
        short = ground arith;
        good = (validate_queue_name_chars_iff base).0 (ground arith);
      })
    ],
    λ v. elim v [ inl s ↦ standard_name_accepted point name s | inr f ↦ fifo_name_accepted name f ],
  )

  check_first_ok :
      (invalid : String → ValidationError) (label id : String)
      → first_is is_ascii_alphabetic id ≡ true
      → check_first is_alphanumeric invalid label id ≡ ok tt
  unfolding check_first
  check_first_ok invalid label String.[] h = refl
  check_first_ok invalid label (String.◌∷◌ c s) h = ground arith

  check_id_chars_ok :
      (invalid : String → ValidationError) (label id : String)
      → all_chars (is_id_char is_alphanumeric) id ≡ true
      → check_id_chars is_alphanumeric invalid label id ≡ ok tt
  unfolding check_id_chars
  check_id_chars_ok invalid label id h =
      rw ((first_bad-eq-none_iff (is_id_char is_alphanumeric) id).1 h, check_id_chars) refl

  pub validate_pubsub_topic_id_of_id :
      (id : String)
      → 3 ≤ len id
      → len id ≤ 255
      → first_is is_ascii_alphabetic id ≡ true
      → all_chars (is_id_char is_alphanumeric) id ≡ true
      → validate_pubsub_topic_id is_alphanumeric id ≡ ok tt
  unfolding validate_pubsub_topic_id validate_pubsub_id
  validate_pubsub_topic_id_of_id id low high first good =
      let a = check_first_ok invalid_topic_id "Topic ID" id first in
      let b = check_id_chars_ok invalid_topic_id "Topic ID" id good in rw (a, b) (ground arith)
