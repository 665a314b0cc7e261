-- ===== src/Common/Chars.antt =====
-- Characters and the texts made of them: the ASCII tests of Rust's `char`, the loop over `chars()`
-- that stops at the first bad one, `strip_suffix`, and their laws.
use Prim.Native.Nat.{ℕ}
use Prim.Native.Char.{Char, code}
use Prim.Native.String.{String, [], ◌∷◌, ◌++◌, count}
use mathlib.Core.Path.{◌≡◌, refl, ap}
use mathlib.Core.Logic.{◌↔◌, ◌⊎◌, inl, inr}
use mathlib.Core.Bool.{Bool, true, false, ◌&&◌, ◌||◌}
use mathlib.Core.Option.{Option, none, some}
use native.Mathlib.Omega.{arith}
use text.Mathlib.Text.{◌==◌ as str_eq}
use text.Mathlib.TextEquality.{eq_iff}
use text.Mathlib.TextPositions.{eq_refl}
use text.Mathlib.TextLemmas.{length-append, length-cons, nil-append, cons-append}
use lclq.Common.Tests.{leb, ◌==◌, if◌then◌else◌, Bool-cases, Option-cases}

abbrev pub is_between : ℕ → ℕ → Char → Bool
is_between low high c = leb low (code c) && leb (code c) high

abbrev pub is_char : ℕ → Char → Bool
is_char n c = code c == n

abbrev pub is_ascii_lowercase : Char → Bool
is_ascii_lowercase = is_between b'a' b'z'

abbrev pub is_ascii_uppercase : Char → Bool
is_ascii_uppercase = is_between b'A' b'Z'

abbrev pub is_ascii_digit : Char → Bool
is_ascii_digit = is_between b'0' b'9'

abbrev pub is_ascii_alphabetic : Char → Bool
is_ascii_alphabetic c = is_ascii_lowercase c || is_ascii_uppercase c

-- Whether a test holds of the first character, if there is one.
abbrev pub first_is : (Char → Bool) → String → Bool
first_is p [] = true
first_is p (c ∷ s) = p c

-- Whether a test holds of each character, and the predicate that says so.
unfoldable pub all_chars : (Char → Bool) → String → Bool
all_chars p [] = true
all_chars p (c ∷ s) = p c && all_chars p s

-- The first character that fails a test, where a loop over `chars()` returns.
unfoldable pub first_bad : (Char → Bool) → String → Option Char
first_bad p [] = none
first_bad p (c ∷ s) = let rest = first_bad p s in if p c then rest else some c

unfoldable pub strip_suffix : (suffix : String) → String → Option String
strip_suffix suffix [] = if str_eq [] suffix then some [] else none
strip_suffix suffix (c ∷ s) =
    let rest : Option String = elim (strip_suffix suffix s) [
      | none ↦ none
      | some base ↦ some (c ∷ base)
    ] in
    if str_eq (c ∷ s) suffix then some [] else rest

pub first_bad-eq-none_iff :
    (p : Char → Bool) (s : String) → (first_bad p s ≡ none) ↔ (all_chars p s ≡ true)
unfolding first_bad all_chars
first_bad-eq-none_iff p [] = (λ _. refl, λ _. refl)
first_bad-eq-none_iff p (c ∷ s) =
    let rest = first_bad-eq-none_iff p s in
    (λ h. ground (arith, rest.0), λ h. ground (arith, rest.1))

pub all_chars_imp :
    (p q : Char → Bool)
    → ((c : Char) → p c ≡ true → q c ≡ true)
    → (s : String) → all_chars p s ≡ true
    → all_chars q s ≡ true
unfolding all_chars
all_chars_imp p q f [] h = refl
all_chars_imp p q f (c ∷ s) h = ground (arith, f c, all_chars_imp p q f s)

pub all_chars-append :
    (p : Char → Bool) (s t : String) → all_chars p (s ++ t) ≡ (all_chars p s && all_chars p t)
unfolding all_chars
all_chars-append p [] t = rw (nil-append t) refl
all_chars-append p (c ∷ s) t = rw (cons-append c s t, all_chars-append p s t) (ground arith)

strip_suffix-cons_of_none :
    (suffix : String) (c : Char) (s : String) (base : String)
    → strip_suffix suffix (c ∷ s) ≡ some base
    → ((c ∷ s ≡ suffix) × (base ≡ []))
      ⊎ ((rest : String) × (strip_suffix suffix s ≡ some rest) × (base ≡ c ∷ rest))
unfolding strip_suffix
strip_suffix-cons_of_none suffix c s base h = elim (Bool-cases (str_eq (c ∷ s) suffix)) [
  | inl e ↦ inl ((eq_iff (c ∷ s) suffix).0 e, ground arith)
  | inr e ↦ elim (Option-cases (strip_suffix suffix s)) [
    | inl n ↦ ground arith
    | inr (rest, found) ↦ inr (rest, found, ground arith)
  ]
]

pub append_of_strip_suffix :
    (suffix s base : String) → strip_suffix suffix s ≡ some base → s ≡ base ++ suffix
unfolding strip_suffix
append_of_strip_suffix suffix [] base h = elim (Bool-cases (str_eq [] suffix)) [
  | inl e ↦
      let empty : base ≡ [] = ground arith in rw (empty, nil-append suffix) ((eq_iff [] suffix).0 e)
  | inr e ↦ absurd (ground arith)
]
append_of_strip_suffix suffix (c ∷ s) base h = elim (strip_suffix-cons_of_none suffix c s base h) [
  | inl (whole, empty) ↦ rw (empty, nil-append suffix) whole
  | inr (rest, found, longer) ↦
      rw (longer, cons-append c rest suffix, append_of_strip_suffix suffix s rest found) refl
]

longer_is_different : (c : Char) (s t : String) → str_eq (c ∷ (s ++ t)) t ≡ false
longer_is_different c s t = elim (Bool-cases (str_eq (c ∷ (s ++ t)) t)) [
  | inl e ↦ absurd (
      omega (
        arith,
        ap count ((eq_iff (c ∷ (s ++ t)) t).0 e),
        length-cons c (s ++ t),
        length-append s t,
      ))
  | inr e ↦ e
]

strip_suffix_self : (suffix : String) → strip_suffix suffix suffix ≡ some []
unfolding strip_suffix
strip_suffix_self [] = refl
strip_suffix_self (c ∷ s) = rw (eq_refl (c ∷ s)) refl

pub strip_suffix-append : (suffix base : String) → strip_suffix suffix (base ++ suffix) ≡ some base
unfolding strip_suffix
strip_suffix-append suffix [] = rw (nil-append suffix) (strip_suffix_self suffix)
strip_suffix-append suffix (c ∷ base) =
    rw
      (
        cons-append c base suffix,
        strip_suffix,
        strip_suffix-append suffix base,
        longer_is_different c base suffix,
      )
      refl
