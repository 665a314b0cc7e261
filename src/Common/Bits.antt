-- ===== src/Common/Bits.antt =====
-- Exclusive or and or of numbers, as far as a comparison of bytes needs them.
use Prim.Native.Nat.{
  ℕ, zero, suc, ◌/◌, ◌%◌, ◌≤◌, max, bit_or, bit_xor, differ, digits, bit_or-bitwise,
  bit_xor-bitwise,
}
use mathlib.Core.Path.{◌≡◌, refl, ◌∙◌, sym, ap}
use native.Mathlib.Omega.{arith}

differ-eq-zero : (x y : ℕ) → differ x y ≡ 0 → x ≡ y
differ-eq-zero zero y h = omega arith
differ-eq-zero (suc x) zero h = omega arith
differ-eq-zero (suc x) (suc y) h = ap suc (differ-eq-zero x y h)

differ_self : (x : ℕ) → differ x x ≡ 0
differ_self zero = refl
differ_self (suc x) = differ_self x

abbrev xor_digits : ℕ → ℕ → ℕ → ℕ
xor_digits = digits (λ b. b) differ

abbrev or_digits : ℕ → ℕ → ℕ → ℕ
or_digits = digits (λ b. b) max

xor_digits-eq-zero : (n a b : ℕ) → a ≤ n → xor_digits n a b ≡ 0 → a ≡ b
xor_digits-eq-zero zero a b p h = omega arith
xor_digits-eq-zero (suc n) zero b p h = omega arith
xor_digits-eq-zero (suc n) (suc a) b p h = omega (
  arith,
  xor_digits-eq-zero n (suc a / 2) (b / 2) (omega arith) (omega arith),
  differ-eq-zero (suc a % 2) (b % 2) (omega arith),
)

xor_digits_self : (n a : ℕ) → a ≤ n → xor_digits n a a ≡ 0
xor_digits_self zero a p = omega arith
xor_digits_self (suc n) zero p = refl
xor_digits_self (suc n) (suc a) p =
    omega (arith, xor_digits_self n (suc a / 2) (omega arith), differ_self (suc a % 2))

pub eq_of_bit_xor-eq-zero : (a b : ℕ) → bit_xor a b ≡ 0 → a ≡ b
eq_of_bit_xor-eq-zero a b h = xor_digits-eq-zero a a b (omega arith) (sym (bit_xor-bitwise a b) ∙ h)

pub bit_xor_self : (a : ℕ) → bit_xor a a ≡ 0
bit_xor_self a = bit_xor-bitwise a a ∙ xor_digits_self a a (omega arith)

or_digits-eq-zero : (n a b : ℕ) → a ≤ n → or_digits n a b ≡ 0 → (a ≡ 0) × (b ≡ 0)
or_digits-eq-zero zero a b p h = omega arith
or_digits-eq-zero (suc n) zero b p h = omega arith
or_digits-eq-zero (suc n) (suc a) b p h =
    omega (arith, or_digits-eq-zero n (suc a / 2) (b / 2) (omega arith) (omega arith))

pub zeros_of_bit_or-eq-zero : (a b : ℕ) → bit_or a b ≡ 0 → (a ≡ 0) × (b ≡ 0)
zeros_of_bit_or-eq-zero a b h = or_digits-eq-zero a a b (omega arith) (sym (bit_or-bitwise a b) ∙ h)

pub zero-bit_or : (b : ℕ) → bit_or 0 b ≡ b
zero-bit_or b = bit_or-bitwise 0 b
