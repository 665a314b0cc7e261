-- ===== src/Common/Decimal.antt =====
-- Rust's `parse` of an unsigned number with an upper bound, as `u32` and `usize` have, and its law
-- with `to_string`: an optional plus sign, then ASCII digits, of which there is at least one.
use Prim.Native.Nat.{ℕ, zero, suc, ◌+◌, ◌-◌, ◌*◌, ◌/◌, ◌%◌, ◌≤◌, ◌<◌, max}
use Prim.Native.Char.{Char, code}
use Prim.Native.String.{String, [], ◌∷◌, count}
use mathlib.Core.Path.{◌≡◌, refl, sym, ap, ◌∙◌}
use mathlib.Core.Logic.{inl, inr}
use mathlib.Core.Bool.{true}
use mathlib.Core.Option.{Option, none, some}
use native.Mathlib.Omega.{arith}
use text.Mathlib.TextLemmas.{nil-append, cons-append, length-nil, length-cons, length-append}
use lclq.Common.Tests.{ltb, leb, le→leb, if◌then◌else◌, Bool-cases}
use lclq.Common.Text.{◌<>◌, digit, decimal, to_string}
use lclq.Common.Chars.{is_char, is_ascii_digit}

parse_digits : (bound acc : ℕ) → String → Option ℕ
parse_digits bound acc [] = some acc
parse_digits bound acc (c ∷ s) =
    let next = acc * 10 + (code c - b'0') in
    let rest = parse_digits bound next s in
    if is_ascii_digit c then if leb next bound then rest else none else none

some_digits : (bound : ℕ) → String → Option ℕ
some_digits bound [] = none
some_digits bound (c ∷ s) = parse_digits bound 0 (c ∷ s)

unfoldable pub parse_unsigned : (bound : ℕ) → String → Option ℕ
unfolding parse_digits some_digits
parse_unsigned bound [] = none
parse_unsigned bound (c ∷ s) =
    if is_char b'+' c then some_digits bound s else some_digits bound (c ∷ s)

then_digits : (bound : ℕ) → Option ℕ → String → Option ℕ
then_digits bound none t = none
then_digits bound (some acc) t = parse_digits bound acc t

parse_digits-append :
    (bound acc : ℕ) (s t : String)
    → parse_digits bound acc (s <> t) ≡ then_digits bound (parse_digits bound acc s) t
unfolding parse_digits then_digits
parse_digits-append bound acc [] t = rw (nil-append t) refl
parse_digits-append bound acc (c ∷ s) t =
    rw (cons-append c s t)
      (ground (arith, parse_digits-append bound (acc * 10 + (code c - b'0')) s t))

digit-cases :
    (d : ℕ)
    → d < 10
    → (c : Char) × (digit d ≡ c ∷ []) × (is_ascii_digit c ≡ true) × (code c - b'0' ≡ d)
unfolding digit
digit-cases zero h = ("0", refl, refl, refl)
digit-cases (suc zero) h = ("1", refl, refl, refl)
digit-cases (suc (suc zero)) h = ("2", refl, refl, refl)
digit-cases (suc (suc (suc zero))) h = ("3", refl, refl, refl)
digit-cases (suc (suc (suc (suc zero)))) h = ("4", refl, refl, refl)
digit-cases (suc (suc (suc (suc (suc zero))))) h = ("5", refl, refl, refl)
digit-cases (suc (suc (suc (suc (suc (suc zero)))))) h = ("6", refl, refl, refl)
digit-cases (suc (suc (suc (suc (suc (suc (suc zero))))))) h = ("7", refl, refl, refl)
digit-cases (suc (suc (suc (suc (suc (suc (suc (suc zero)))))))) h = ("8", refl, refl, refl)
digit-cases (suc (suc (suc (suc (suc (suc (suc (suc (suc zero))))))))) h = ("9", refl, refl, refl)
digit-cases (suc (suc (suc (suc (suc (suc (suc (suc (suc (suc d)))))))))) h = absurd (omega arith)

parse_digits-digit :
    (bound acc d : ℕ)
    → d < 10
    → acc * 10 + d ≤ bound
    → parse_digits bound acc (digit d) ≡ some (acc * 10 + d)
unfolding parse_digits
parse_digits-digit bound acc d h b =
    let (c, e, t, v) = digit-cases d h in rw (e, t, v, le→leb (acc * 10 + d) bound b) refl

parse_digits-decimal :
    (bound fuel n : ℕ) → n < fuel → n ≤ bound → parse_digits bound 0 (decimal fuel n) ≡ some n
unfolding decimal then_digits
parse_digits-decimal bound zero n h b = absurd (omega arith)
parse_digits-decimal bound (suc fuel) n h b = elim (Bool-cases (ltb n 10)) [
  | inl t ↦ rw t (parse_digits-digit bound 0 n (ground arith) (omega arith) ∙ ap some (omega arith))
  | inr t ↦
      let small : 10 ≤ n = ground arith in
      let last = parse_digits-digit bound (n / 10) (n % 10) (omega arith) (omega arith) in
      rw
        (
          t,
          parse_digits-append bound 0 (decimal fuel (n / 10)) (digit (n % 10)),
          parse_digits-decimal bound fuel (n / 10) (omega arith) (omega arith),
        )
        (last ∙ ap some (omega arith))
]

count-digit : (d : ℕ) → d < 10 → count (digit d) ≡ 1
count-digit d h =
    let (c, e, t, v) = digit-cases d h in omega (arith, ap count e, length-cons c [], length-nil)

decimal_nonempty : (fuel n : ℕ) → 0 < count (decimal (suc fuel) n)
unfolding decimal
decimal_nonempty fuel n = elim (Bool-cases (ltb n 10)) [
  | inl t ↦ rw t (omega (arith, count-digit n (ground arith)))
  | inr t ↦ rw t (
      omega (
        arith,
        length-append (decimal fuel (n / 10)) (digit (n % 10)),
        count-digit (n % 10) (omega arith),
      ))
]

parse_unsigned_of_digits :
    (bound : ℕ) (s : String) (n : ℕ)
    → 0 < count s
    → parse_digits bound 0 s ≡ some n
    → parse_unsigned bound s ≡ some n
unfolding parse_unsigned parse_digits some_digits
parse_unsigned_of_digits bound [] n h e = absurd (omega arith)
parse_unsigned_of_digits bound (c ∷ s) n h e = ground arith

-- A number within the bound is what its decimal text parses to.
pub parse_unsigned-to_string :
    (bound n : ℕ) → n ≤ bound → parse_unsigned bound (to_string n) ≡ some n
unfolding to_string
parse_unsigned-to_string bound n b =
    parse_unsigned_of_digits bound (to_string n) n (decimal_nonempty n n)
      (parse_digits-decimal bound (suc n) n (omega arith) b)

some_injective : {a b : ℕ} → some a ≡ some b → a ≡ b
some_injective h = cc

pub to_string_injective : (n k : ℕ) → to_string n ≡ to_string k → n ≡ k
to_string_injective n k e = some_injective (
    sym (parse_unsigned-to_string (max n k) n (omega arith))
    ∙ ap (parse_unsigned (max n k)) e
    ∙ parse_unsigned-to_string (max n k) k (omega arith))

parse_digits-bound :
    (bound acc : ℕ) (s : String) (n : ℕ)
    → acc ≤ bound
    → parse_digits bound acc s ≡ some n
    → n ≤ bound
unfolding parse_digits
parse_digits-bound bound acc [] n h e = ground arith
parse_digits-bound bound acc (c ∷ s) n h e =
    ground (arith, parse_digits-bound bound (acc * 10 + (code c - b'0')) s n)

some_digits-bound : (bound : ℕ) (s : String) (n : ℕ) → some_digits bound s ≡ some n → n ≤ bound
unfolding some_digits
some_digits-bound bound [] n e = cc
some_digits-bound bound (c ∷ s) n e = parse_digits-bound bound 0 (c ∷ s) n (omega arith) e

pub parse_unsigned-bound :
    (bound : ℕ) (s : String) (n : ℕ) → parse_unsigned bound s ≡ some n → n ≤ bound
unfolding parse_unsigned
parse_unsigned-bound bound [] n e = cc
parse_unsigned-bound bound (c ∷ s) n e =
    ground (arith, some_digits-bound bound s n, some_digits-bound bound (c ∷ s) n)
