-- ===== src/PubSub/Ids.antt =====
-- pubsub/types.rs: the checks of topic, subscription and project IDs and of message sizes. A length
-- is in bytes, as `str::len` counts. The `expect` on the first character is reached only with a
-- text that has one: `check_first` answers `ok tt` for the empty text, which is never given to it.
pub mod Accepts
use Prim.Native.Char.{Char}
use Prim.Native.String.{len}
use Prim.Native.String
use lclq.Common.{ℕ, ◌*◌, String, Bool, List, Option, none, some, length, ltb, ◌||◌, if◌then◌else◌}
use lclq.Common.Text.{◌<>◌}
use lclq.Common.Chars.{
  is_char, is_ascii_lowercase, is_ascii_uppercase, is_ascii_digit, is_ascii_alphabetic, first_bad,
}
use lclq.Error.{
  ValidationError, invalid_topic_id, invalid_subscription_id, invalid_parameter, message_too_large,
  validation, Result, ok, err, ◌>>◌,
}

abbrev pub is_topic_char : Char → Bool
is_topic_char c =
    is_ascii_lowercase c
    || is_ascii_uppercase c
    || is_ascii_digit c
    || is_char b'-' c
    || is_char b'_' c
    || is_char b'.' c
    || is_char b'~' c
    || is_char b'+' c
    || is_char b'%' c

abbrev pub is_project_char : Char → Bool
is_project_char c = is_ascii_lowercase c || is_ascii_digit c || is_char b'-' c

-- The three checks of an ID: its length, its first character, and all its characters.
check_length : ValidationError → (shortest longest : ℕ) → String → Result (Unit {0})
check_length invalid shortest longest id =
    if ltb (len id) shortest || ltb longest (len id) then err (validation invalid) else ok tt

check_first : ValidationError → (Char → Bool) → String → Result (Unit {0})
check_first invalid p String.[] = ok tt
check_first invalid p (String.◌∷◌ first_char rest) =
    if p first_char then ok tt else err (validation invalid)

check_chars : (Char → ValidationError) → (Char → Bool) → String → Result (Unit {0})
check_chars invalid p id = elim (first_bad p id) [
  | some ch ↦ err (validation (invalid ch))
  | none ↦ ok tt
]

unfoldable pub validate_topic_id : String → Result (Unit {0})
unfolding check_length check_first check_chars
validate_topic_id topic_id =
    check_length (invalid_topic_id "Topic ID must be 3-255 characters") 3 255 topic_id
    >> check_first (invalid_topic_id "Topic ID must start with a letter") is_ascii_alphabetic
        topic_id
    >> check_chars
        (λ ch. invalid_topic_id ("Topic ID contains invalid character: " <> String.◌∷◌ ch ""))
        is_topic_char topic_id

unfoldable pub validate_subscription_id : String → Result (Unit {0})
unfolding check_length check_first check_chars
validate_subscription_id subscription_id =
    check_length (invalid_subscription_id "Subscription ID must be 3-255 characters") 3 255
      subscription_id
    >> check_first (invalid_subscription_id "Subscription ID must start with a letter")
        is_ascii_alphabetic subscription_id
    >> check_chars
        (λ ch.
          invalid_subscription_id
            ("Subscription ID contains invalid character: " <> String.◌∷◌ ch ""))
        is_topic_char subscription_id

unfoldable pub validate_project_id : String → Result (Unit {0})
unfolding check_length check_first check_chars
validate_project_id project_id =
    check_length (invalid_parameter "project_id" "Project ID must be 6-30 characters") 6 30
      project_id
    >> check_first (invalid_parameter "project_id" "Project ID must start with a lowercase letter")
        is_ascii_lowercase project_id
    >> check_chars
        (λ ch.
          invalid_parameter "project_id"
            ("Project ID contains invalid character: " <> String.◌∷◌ ch ""))
        is_project_char project_id

abbrev pub max_message_size : ℕ
max_message_size = 10 * 1024 * 1024

unfoldable pub validate_message_size : List ℕ → Result (Unit {0})
validate_message_size data' =
    if ltb max_message_size (length data')
    then err (validation (message_too_large (length data') max_message_size))
    else ok tt
