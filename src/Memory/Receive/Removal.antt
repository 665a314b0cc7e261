-- ===== src/Memory/Receive/Removal.antt =====
-- About the loop of `receive_messages` in storage/memory.rs that removes the messages at the
-- collected indices, from the last to the first.
use mathlib.Core.List.{append_assoc, reverse-cons}
use mathlib.Core.Path.{◌≡⟨◌⟩◌, ◌∎}
use lclq.Common.{
  ℕ, zero, suc, String, ◌≡◌, refl, sym, ap, ◌∙◌, inl, inr, List, [], ◌∷◌, ◌++◌, some, length,
  get_elem?, erase_idx, leb, reverse, arith, Bool-cases,
}
use lclq.Types.{DateTime, Message, QueueConfig}
use lclq.Receipt.{ReceiptCodec}
use lclq.Memory.State.{StoredMessage}
use lclq.Memory.Receive.Selection.{Indexed, indices, chosen, left_over}
use lclq.Memory.Receive.{Taking, delivered, take_message, take_index, take_indices}

length-concat {ℓ} : {A : Type ℓ} (xs : List A) (x : A) → length (xs ++ x ∷ []) ≡ suc (length xs)
length-concat [] x = refl
length-concat (y ∷ xs) x = ap suc (length-concat xs x)

get_elem?-append_length {ℓ} :
    {A : Type ℓ} (xs : List A) (y : A) (ys : List A) → get_elem? (xs ++ y ∷ ys) (length xs) ≡ some y
get_elem?-append_length [] y ys = refl
get_elem?-append_length (x ∷ xs) y ys = get_elem?-append_length xs y ys

erase_idx-append_length {ℓ} :
    {A : Type ℓ} (xs : List A) (y : A) (ys : List A)
    → erase_idx (xs ++ y ∷ ys) (length xs) ≡ xs ++ ys
erase_idx-append_length [] y ys = refl
erase_idx-append_length (x ∷ xs) y ys = ap (◌∷◌ x) (erase_idx-append_length xs y ys)

module _ (codec : ReceiptCodec) (queue_id : String) (config : QueueConfig) (expires : DateTime)
    (nonce : ℕ → String) where
  take_indices-append :
      (t : Taking) (is js : List ℕ)
      → take_indices codec queue_id config expires nonce t (is ++ js)
        ≡ take_indices codec queue_id config expires nonce
            (take_indices codec queue_id config expires nonce t is)
            js
  unfolding take_indices
  take_indices-append t [] js = refl
  take_indices-append t (i ∷ is) js =
      take_indices-append (take_index codec queue_id config expires nonce t i) is js

  -- The deliveries of messages that have already been removed.
  unfoldable pub deliver : Taking → List Indexed → Taking
  deliver t [] = t
  deliver t ((i, m) ∷ rest) =
      deliver (take_message codec queue_id config expires (nonce i) (delivered m) t) rest

  deliver-append :
      (t : Taking) (xs ys : List Indexed) → deliver t (xs ++ ys) ≡ deliver (deliver t xs) ys
  unfolding deliver
  deliver-append t [] ys = refl
  deliver-append t ((i, m) ∷ xs) ys =
      deliver-append (take_message codec queue_id config expires (nonce i) (delivered m) t) xs ys

  abbrev pub with_available : Taking → List StoredMessage → Taking
  with_available t ms = record t { available = ms }

  take_message-with_available :
      (n : String) (m : Message) (t : Taking) (ms : List StoredMessage)
      → take_message codec queue_id config expires n m (with_available t ms)
        ≡ with_available (take_message codec queue_id config expires n m t) ms
  unfolding take_message
  take_message-with_available n m t ms = ground arith

  deliver-with_available :
      (t : Taking) (ms : List StoredMessage) (xs : List Indexed)
      → deliver (with_available t ms) xs ≡ with_available (deliver t xs) ms
  unfolding deliver
  deliver-with_available t ms [] = refl
  deliver-with_available t ms ((i, m) ∷ xs) =
      rw (take_message-with_available (nonce i) (delivered m) t ms) (
        deliver-with_available
          (take_message codec queue_id config expires (nonce i) (delivered m) t) ms xs)

  take_index_hit :
      (t : Taking) (front back : List StoredMessage) (m : StoredMessage)
      → take_index codec queue_id config expires nonce
          (with_available t (front ++ m ∷ back))
          (length front)
        ≡ deliver (with_available t (front ++ back)) ((length front, m) ∷ [])
  unfolding take_index deliver
  take_index_hit t front back m =
      rw (get_elem?-append_length front m back, erase_idx-append_length front m back, take_index)
        refl

  abbrev pub take_all : Taking → List ℕ → Taking
  take_all = take_indices codec queue_id config expires nonce

  -- One more message in front of those that have been taken.
  take_one_more :
      (t : Taking) (front back left : List StoredMessage) (m : StoredMessage) (xs : List Indexed)
      → take_all (with_available t back) (reverse (indices xs))
        ≡ deliver (with_available t (front ++ m ∷ left)) (reverse xs)
      → take_all (with_available t back) (reverse (length front ∷ indices xs))
        ≡ deliver (with_available t (front ++ left)) (reverse ((length front, m) ∷ xs))
  unfolding take_indices
  take_one_more t front back left m xs ih =
      let i = length front in
      let last = (i, m) ∷ [] in
      take_all (with_available t back) (reverse (i ∷ indices xs))
      ≡⟨ ap (take_all (with_available t back)) (reverse-cons i (indices xs)) ⟩
        take_all (with_available t back) (reverse (indices xs) ++ i ∷ [])
      ≡⟨ take_indices-append (with_available t back) (reverse (indices xs)) (i ∷ []) ⟩
        take_all (take_all (with_available t back) (reverse (indices xs))) (i ∷ [])
      ≡⟨ ap (λ u. take_all u (i ∷ []))
          (ih ∙ deliver-with_available t (front ++ m ∷ left) (reverse xs)) ⟩
        take_all (with_available (deliver t (reverse xs)) (front ++ m ∷ left)) (i ∷ [])
      ≡⟨ take_index_hit (deliver t (reverse xs)) front left m ⟩
        deliver (with_available (deliver t (reverse xs)) (front ++ left)) last
      ≡⟨ ap (λ u. deliver u last) (sym (deliver-with_available t (front ++ left) (reverse xs))) ⟩
        deliver (deliver (with_available t (front ++ left)) (reverse xs)) last
      ≡⟨ sym (deliver-append (with_available t (front ++ left)) (reverse xs) last) ⟩
        deliver (with_available t (front ++ left)) (reverse xs ++ last)
      ≡⟨ ap (deliver (with_available t (front ++ left))) (sym (reverse-cons (i, m) xs)) ⟩
        deliver (with_available t (front ++ left)) (reverse ((i, m) ∷ xs)) ∎

  abbrev pub Agree : ℕ → DateTime → Taking → List StoredMessage → List StoredMessage → Type 0
  Agree n now t front ms =
      take_all (with_available t (front ++ ms)) (reverse (indices (chosen n now (length front) ms)))
      ≡ deliver (with_available t (front ++ left_over n now ms))
          (reverse (chosen n now (length front) ms))

  -- The claim for a longer front, with the added message moved back.
  shift_front :
      (n : ℕ) (now : DateTime) (t : Taking) (front ms : List StoredMessage) (m : StoredMessage)
      → Agree n now t (front ++ m ∷ []) ms
      → take_all
          (with_available t (front ++ m ∷ ms))
          (reverse (indices (chosen n now (suc (length front)) ms)))
        ≡ deliver
            (with_available t (front ++ m ∷ left_over n now ms))
            (reverse (chosen n now (suc (length front)) ms))
  shift_front n now t front ms m h =
      rw
        (
          append_assoc front (m ∷ []) ms,
          append_assoc front (m ∷ []) (left_over n now ms),
          length-concat front m,
        )
        at h

  -- Removing by index, from the back, leaves what one pass from the front leaves.
  pub take_indices-chosen :
      (n : ℕ) (now : DateTime) (t : Taking) (front ms : List StoredMessage) → Agree n now t front ms
  unfolding chosen left_over take_indices deliver
  take_indices-chosen zero now t front ms = refl
  take_indices-chosen (suc n) now t front [] = refl
  take_indices-chosen (suc n) now t front (m ∷ ms) =
      let hit = shift_front n now t front ms m (take_indices-chosen n now t (front ++ m ∷ []) ms) in
      let miss =
        shift_front (suc n) now t front ms m
          (take_indices-chosen (suc n) now t (front ++ m ∷ []) ms) in
      elim (Bool-cases (leb m.visible_at now)) [
        | inl e ↦ rw e (
            take_one_more t front (front ++ m ∷ ms) (left_over n now ms) m
              (chosen n now (suc (length front)) ms) hit)
        | inr e ↦ rw e miss
      ]
