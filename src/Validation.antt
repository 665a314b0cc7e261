-- ===== src/Validation.antt =====
-- types/validation.rs: the checks of queue names, topic and subscription IDs and message sizes.
-- `is_alphanumeric` stands for the Unicode table of Rust's `char::is_alphanumeric`, and a length is
-- in bytes, as `str::len` counts.
pub mod Accepts
use Prim.Native.Char.{Char}
use Prim.Native.String.{len}
use Prim.Native.String
use lclq.Common.{ℕ, String, Bool, Option, none, some, ltb, ◌==◌, ◌||◌, if◌then◌else◌}
use lclq.Common.Text.{◌<>◌, to_string}
use lclq.Common.Chars.{is_char, is_ascii_alphabetic, first_bad, strip_suffix}
use lclq.Error.{
  ValidationError, invalid_queue_name, invalid_topic_id, invalid_subscription_id, message_too_large,
  validation, Result, ok, err, ◌>>◌,
}

abbrev pub sqs_max_message_size : ℕ
sqs_max_message_size = 262144

abbrev pub pubsub_max_message_size : ℕ
pubsub_max_message_size = 10485760

unfoldable pub validate_message_size : (size max_size : ℕ) → Result (Unit {0})
validate_message_size size max_size =
    if ltb max_size size then err (validation (message_too_large size max_size)) else ok tt

module _ (is_alphanumeric : Char → Bool) where
  abbrev pub is_queue_name_char : Char → Bool
  is_queue_name_char c = is_alphanumeric c || is_char b'-' c || is_char b'_' c

  unfoldable pub validate_queue_name_chars : String → Result (Unit {0})
  validate_queue_name_chars name = elim (first_bad is_queue_name_char name) [
    | some ch ↦ err (
        validation
          (invalid_queue_name ("Queue name contains invalid character: '" <> String.◌∷◌ ch "'")))
    | none ↦ ok tt
  ]

  unfoldable pub validate_sqs_queue_name : String → Result (Unit {0})
  unfolding validate_queue_name_chars
  validate_sqs_queue_name name =
      if len name == 0 || ltb 80 (len name)
      then err (
          validation (
            invalid_queue_name
              ("Queue name must be 1-80 characters, got " <> to_string (len name))))
      else elim (strip_suffix ".fifo" name) [
        | none ↦ validate_queue_name_chars name
        | some base_name ↦
            if len base_name == 0 || ltb 75 (len base_name)
            then err (
                validation (
                  invalid_queue_name (
                    "FIFO queue base name must be 1-75 characters, got "
                    <> to_string (len base_name))))
            else validate_queue_name_chars base_name
      ]

  abbrev pub is_id_char : Char → Bool
  is_id_char c =
      is_alphanumeric c
      || is_char b'-' c
      || is_char b'_' c
      || is_char b'.' c
      || is_char b'~' c
      || is_char b'+' c
      || is_char b'%' c

  -- The common text of `validate_pubsub_topic_id` and `validate_pubsub_subscription_id`, which
  -- differ in the error and in its wording; `first` is the head of `chars()`.
  check_first : (String → ValidationError) → String → String → Result (Unit {0})
  check_first invalid label String.[] = ok tt
  check_first invalid label (String.◌∷◌ first rest) =
      if is_ascii_alphabetic first
      then ok tt
      else err (validation (invalid (label <> " must start with a letter")))

  check_id_chars : (String → ValidationError) → String → String → Result (Unit {0})
  check_id_chars invalid label id = elim (first_bad is_id_char id) [
    | some ch ↦
        err (validation (invalid (label <> " contains invalid character: '" <> String.◌∷◌ ch "'")))
    | none ↦ ok tt
  ]

  validate_pubsub_id : (String → ValidationError) → String → String → Result (Unit {0})
  unfolding check_first check_id_chars
  validate_pubsub_id invalid label id =
      if ltb (len id) 3 || ltb 255 (len id)
      then err
          (validation (invalid (label <> " must be 3-255 characters, got " <> to_string (len id))))
      else check_first invalid label id >> check_id_chars invalid label id

  unfoldable pub validate_pubsub_topic_id : String → Result (Unit {0})
  unfolding validate_pubsub_id
  validate_pubsub_topic_id = validate_pubsub_id invalid_topic_id "Topic ID"

  unfoldable pub validate_pubsub_subscription_id : String → Result (Unit {0})
  unfolding validate_pubsub_id
  validate_pubsub_subscription_id = validate_pubsub_id invalid_subscription_id "Subscription ID"
