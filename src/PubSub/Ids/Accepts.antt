-- ===== src/PubSub/Ids/Accepts.antt =====
-- About the IDs of pubsub/types.rs: what the checks accept, also next to the parser of names and to
-- the check of types/validation.rs.
use Prim.Native.Char.{Char, code, len_utf8, len_utf8_def}
use Prim.Native.String.{len, count}
use Prim.Native.String.len
use Prim.Native.String.count
use lclq.Common.{ℕ, ◌≤◌, String, ◌≡◌, refl, ◌↔◌, ◌⊎◌, Bool, true, not, ◌||◌, arith}
use lclq.Common.Chars.{
  is_char, is_ascii_alphabetic, is_ascii_lowercase, is_ascii_digit, all_chars, first_is,
  first_bad-eq-none_iff, all_chars_imp,
}
use lclq.Error.{ValidationError, Result, ok, err, ◌>>◌}
use lclq.Validation
use lclq.Validation.Accepts.{validate_pubsub_topic_id_of_id}
use lclq.PubSub.Names.{topic, subscription, parse, display}
use lclq.PubSub.Names.RoundTrip.{has_no_slash, parse-display}
use lclq.PubSub.Ids.{
  is_topic_char, is_project_char, check_length, check_first, check_chars, validate_topic_id,
  validate_subscription_id, validate_project_id,
}

-- What an ID is, by its bounds, the test of its first character and that of all.
pub record IsId (shortest longest : ℕ) (first all : Char → Bool) (id : String) : Type 0 where
  pub long_enough : shortest ≤ len id
  pub short_enough : len id ≤ longest
  pub starts_well : first_is first id ≡ true
  pub all_good : all_chars all id ≡ true

both_ok : (m n : Result (Unit {0})) → (m >> n ≡ ok tt) ↔ ((m ≡ ok tt) × (n ≡ ok tt))
both_ok (ok _) n = (λ h. (refl, h), λ h. h.1)
both_ok (err e) n = (λ h. cc, λ h. cc)

check_length_iff :
    (e : ValidationError) (low high : ℕ) (id : String)
    → (check_length e low high id ≡ ok tt) ↔ ((low ≤ len id) × (len id ≤ high))
unfolding check_length
check_length_iff e low high id = (λ h. (ground arith, ground arith), λ h. ground arith)

check_first_iff :
    (first : Char → Bool) (e : ValidationError) (id : String)
    → (check_first e first id ≡ ok tt) ↔ (first_is first id ≡ true)
unfolding check_first
check_first_iff first e String.[] = (λ _. refl, λ _. refl)
check_first_iff first e (String.◌∷◌ c s) = (λ h. ground arith, λ h. ground arith)

check_chars_iff :
    (all : Char → Bool) (e : Char → ValidationError) (id : String)
    → (check_chars e all id ≡ ok tt) ↔ (all_chars all id ≡ true)
unfolding check_chars
check_chars_iff all e id =
    let good = first_bad-eq-none_iff all id in
    (λ h. ground (arith, good.0), λ h. ground (arith, good.1))

abbrev checks :
    (low high : ℕ) (first all : Char → Bool) (e₁ e₂ : ValidationError) (e₃ : Char → ValidationError)
    → String
    → Result (Unit {0})
checks low high first all e₁ e₂ e₃ id =
    check_length e₁ low high id >> check_first e₂ first id >> check_chars e₃ all id

checks_iff :
    (low high : ℕ) (first all : Char → Bool) (e₁ e₂ : ValidationError) (e₃ : Char → ValidationError)
    (id : String)
    → (checks low high first all e₁ e₂ e₃ id ≡ ok tt) ↔ IsId low high first all id
checks_iff low high first all e₁ e₂ e₃ id =
    let front = check_length e₁ low high id >> check_first e₂ first id in
    let outer = both_ok front (check_chars e₃ all id) in
    let inner = both_ok (check_length e₁ low high id) (check_first e₂ first id) in
    let a = check_length_iff e₁ low high id in
    let b = check_first_iff first e₂ id in
    let c = check_chars_iff all e₃ id in
    (
      λ h.
          let (fine, chars) = outer.0 h in
          let (bounds, start) = inner.0 fine in
          record {
            long_enough = (a.0 bounds).0;
            short_enough = (a.0 bounds).1;
            starts_well = b.0 start;
            all_good = c.0 chars;
          },
      λ v.
          outer.1
            (inner.1 (a.1 (v.long_enough, v.short_enough), b.1 v.starts_well), c.1 v.all_good),
    )

abbrev PassesTopicChecks : String → Type 0
PassesTopicChecks = IsId 3 255 is_ascii_alphabetic is_topic_char

abbrev pub IsProjectId : String → Type 0
IsProjectId = IsId 6 30 is_ascii_lowercase is_project_char

-- The characters of an ID as Pub/Sub documents them, by their numbers: the letters, the digits and
-- -, _, ., ~, + and %.
abbrev pub IsLetter : ℕ → Type 0
IsLetter n = ((97 ≤ n) × (n ≤ 122)) ⊎ ((65 ≤ n) × (n ≤ 90))

abbrev pub IsListed : ℕ → Type 0
IsListed n =
    IsLetter n
    ⊎ ((48 ≤ n) × (n ≤ 57))
    ⊎ (n ≡ 45)
    ⊎ (n ≡ 95)
    ⊎ (n ≡ 46)
    ⊎ (n ≡ 126)
    ⊎ (n ≡ 43)
    ⊎ (n ≡ 37)

abbrev pub AllListed : String → Type 0
AllListed String.[] = Unit
AllListed (String.◌∷◌ c s) = IsListed (code c) × AllListed s

abbrev pub StartsWithLetter : String → Type 0
StartsWithLetter String.[] = Unit
StartsWithLetter (String.◌∷◌ c s) = IsLetter (code c)

-- An ID by the number of its characters, not of its bytes.
pub record IsTopicId (id : String) : Type 0 where
  pub long_enough : 3 ≤ count id
  pub short_enough : count id ≤ 255
  pub starts_with_letter : StartsWithLetter id
  pub all_listed : AllListed id

is_topic_char_iff : (c : Char) → (is_topic_char c ≡ true) ↔ IsListed (code c)
is_topic_char_iff c = (λ h. ground arith, λ h. ground arith)

AllListed-iff : (id : String) → (all_chars is_topic_char id ≡ true) ↔ AllListed id
unfolding all_chars
AllListed-iff String.[] = (λ _. tt, λ _. refl)
AllListed-iff (String.◌∷◌ c s) =
    let first = is_topic_char_iff c in
    let rest = AllListed-iff s in
    (λ h. (first.0 (ground arith), rest.0 (ground arith)), λ h. rw (first.1 h.0, rest.1 h.1) refl)

StartsWithLetter-iff :
    (id : String) → (first_is is_ascii_alphabetic id ≡ true) ↔ StartsWithLetter id
StartsWithLetter-iff String.[] = (λ _. tt, λ _. refl)
StartsWithLetter-iff (String.◌∷◌ c s) = (λ h. ground arith, λ h. ground arith)

-- The listed characters take one byte each.
len_utf8_of_listed : (c : Char) → IsListed (code c) → len_utf8 c ≡ 1
len_utf8_of_listed c h = rw (len_utf8_def c) (ground arith)

len-eq-count : (id : String) → AllListed id → len id ≡ count id
len-eq-count String.[] h = refl
len-eq-count (String.◌∷◌ c s) h =
    rw (len.cons c s, count.cons c s, len_utf8_of_listed c h.0) (omega (arith, len-eq-count s h.1))

checks-IsTopicId : (id : String) → PassesTopicChecks id ↔ IsTopicId id
checks-IsTopicId id =
    let listed = AllListed-iff id in
    let letter = StartsWithLetter-iff id in
    (
      λ v.
          let good = listed.0 v.all_good in
          let same = len-eq-count id good in
          record {
            long_enough = omega (arith, same, v.long_enough);
            short_enough = omega (arith, same, v.short_enough);
            starts_with_letter = letter.0 v.starts_well;
            all_listed = good;
          },
      λ v.
          let same = len-eq-count id v.all_listed in
          record {
            long_enough = omega (arith, same, v.long_enough);
            short_enough = omega (arith, same, v.short_enough);
            starts_well = letter.1 v.starts_with_letter;
            all_good = listed.1 v.all_listed;
          },
    )

topic_checks_iff : (id : String) → (validate_topic_id id ≡ ok tt) ↔ PassesTopicChecks id
unfolding validate_topic_id
topic_checks_iff id = checks_iff 3 255 is_ascii_alphabetic is_topic_char _ _ _ id

subscription_checks_iff :
    (id : String) → (validate_subscription_id id ≡ ok tt) ↔ PassesTopicChecks id
unfolding validate_subscription_id
subscription_checks_iff id = checks_iff 3 255 is_ascii_alphabetic is_topic_char _ _ _ id

-- A topic ID, and likewise a subscription ID, is accepted exactly if it has 3 to 255 bytes, starts
-- with an ASCII letter and has only ASCII letters, ASCII digits and the characters - _ . ~ + and
-- %, each given by its code number.
pub validate_topic_id_iff :
    (id : String)
    → ((validate_topic_id id ≡ ok tt) ↔ IsTopicId id)
      × ((validate_subscription_id id ≡ ok tt) ↔ IsTopicId id)
validate_topic_id_iff id =
    let topics = topic_checks_iff id in
    let subscriptions = subscription_checks_iff id in
    let same = checks-IsTopicId id in
    (
      (λ h. same.0 (topics.0 h), λ v. topics.1 (same.1 v)),
      (λ h. same.0 (subscriptions.0 h), λ v. subscriptions.1 (same.1 v)),
    )

pub validate_project_id_iff : (id : String) → (validate_project_id id ≡ ok tt) ↔ IsProjectId id
unfolding validate_project_id
validate_project_id_iff id = checks_iff 6 30 is_ascii_lowercase is_project_char _ _ _ id

no_slash : (id : String) → PassesTopicChecks id → has_no_slash id ≡ true
no_slash id v =
    all_chars_imp is_topic_char (λ c. not (is_char b'/' c)) (λ c h. ground arith) id v.all_good

-- The names of a topic and of a subscription, each with an ID that the check of its own kind
-- accepts, in an accepted project parse back to what they were made of.
pub parse-display_of_valid :
    (p t s : String)
    → validate_project_id p ≡ ok tt
    → validate_topic_id t ≡ ok tt
    → validate_subscription_id s ≡ ok tt
    → (parse (display (topic p t)) ≡ ok (topic p t))
      × (parse (display (subscription p s)) ≡ ok (subscription p s))
parse-display_of_valid p t s hp ht hs =
    let no_slash_p : has_no_slash p ≡ true =
      all_chars_imp is_project_char (λ c. not (is_char b'/' c)) (λ c h. ground arith) p
        ((validate_project_id_iff p).0 hp).all_good in
    (
      parse-display (topic p t) no_slash_p (no_slash t ((topic_checks_iff t).0 ht)),
      parse-display (subscription p s) no_slash_p (no_slash s ((subscription_checks_iff s).0 hs)),
    )

-- A topic ID that pubsub/types.rs accepts is accepted by types/validation.rs too, if ASCII letters
-- and digits are alphanumeric.
pub validate_topic_id-imp-validate_pubsub_topic_id :
    (is_alphanumeric : Char → Bool)
    → ((c : Char) → (is_ascii_alphabetic c || is_ascii_digit c) ≡ true → is_alphanumeric c ≡ true)
    → (id : String) → validate_topic_id id ≡ ok tt
    → Validation.validate_pubsub_topic_id is_alphanumeric id ≡ ok tt
validate_topic_id-imp-validate_pubsub_topic_id is_alphanumeric ascii id h =
    let v = (topic_checks_iff id).0 h in
    validate_pubsub_topic_id_of_id is_alphanumeric id v.long_enough v.short_enough v.starts_well (
      all_chars_imp is_topic_char (Validation.is_id_char is_alphanumeric)
        (λ c good. ground (arith, ascii c)) id v.all_good)
