-- ===== src/Error.antt =====
-- error/mod.rs: the errors of the library, and its `Result` with the `?` operator as a bind. The
-- foreign errors of `Serialization` and `Io` are kept by their texts.
pub mod Display
use lclq.Common.{ℕ, String, ◌≡◌, refl, Option, none, some}

pub data ValidationError : Type 0 where
  invalid_queue_name : String → ValidationError
  invalid_topic_id : String → ValidationError
  invalid_subscription_id : String → ValidationError
  message_too_large : (size max : ℕ) → ValidationError
  invalid_attribute : String → ValidationError
  invalid_parameter : (name reason : String) → ValidationError

pub data Error : Type 0 where
  config : String → Error
  validation : ValidationError → Error
  storage_error : String → Error
  queue_already_exists : String → Error
  not_implemented : String → Error
  queue_not_found : String → Error
  topic_not_found : String → Error
  subscription_not_found : String → Error
  message_not_found : String → Error
  invalid_receipt_handle : Error
  serialization : String → Error
  io : String → Error
  internal : String → Error

pub data Result {ℓ} (A : Type ℓ) : Type ℓ where
  ok : A → Result A
  err : Error → Result A

infixl 5 ◌>>=◌ ◌>>◌
abbrev pub ◌>>=◌ {ℓ κ} : {A : Type ℓ} {B : Type κ} → Result A → (A → Result B) → Result B
ok a >>= f = f a
err e >>= f = err e

abbrev pub ◌>>◌ {ℓ κ} : {A : Type ℓ} {B : Type κ} → Result A → Result B → Result B
m >> n = m >>= λ _. n

-- `Option::ok_or`.
abbrev pub ok_or {ℓ} : {A : Type ℓ} → Option A → Error → Result A
ok_or none e = err e
ok_or (some a) e = ok a

-- A chain that succeeds has a value at its first step.
pub >>=-eq-ok_of_option {ℓ κ} :
    {A : Type ℓ} {B : Type κ} (o : Option A) (e : Error) (f : A → Result B) {b : B}
    → (ok_or o e >>= f) ≡ ok b
    → (a : A) × (o ≡ some a) × (f a ≡ ok b)
>>=-eq-ok_of_option none e f h = cc
>>=-eq-ok_of_option (some a) e f h = (a, refl, h)
