-- ===== src/Common/Numbered/Complete.antt =====
-- About the loop over numbered parameters: the fuel is enough.
use Prim.Native.Nat.{ℕ, zero, suc, ◌+◌, ◌≤◌}
use Prim.Native.String.{String}
use mathlib.Core.Path.{◌≡◌, refl, ap, ◌∙◌}
use mathlib.Core.Logic.{◌≢◌, inl, inr}
use mathlib.Core.List.{[], ◌∷◌}
use mathlib.Core.Option.{Option, none, some}
use native.Mathlib.Omega.{arith}
use text.Mathlib.TextEquality.{eq_iff}
use lclq.Common.Tests.{Option-cases}
use lclq.Common.Lists.{length}
use lclq.Common.HashMap.{HashMap, get, remove, get-remove}
use lclq.Common.Numbered.{collect}

module _ {ℓ} {V : Type ℓ} where
  length-remove_le : (k : String) (m : HashMap V) → length (remove k m) ≤ length m
  unfolding remove
  length-remove_le k [] = omega arith
  length-remove_le k ((j, v) ∷ m) = ground (arith, length-remove_le k m)

  length-remove_lt :
      (k : String) (m : HashMap V) (v : V) → get k m ≡ some v → suc (length (remove k m)) ≤ length m
  unfolding get remove
  length-remove_lt k [] v h = ground arith
  length-remove_lt k ((j, w) ∷ m) v h = ground (arith, length-remove_le k m, length-remove_lt k m v)

  get-remove_other : (k j : String) (m : HashMap V) → k ≢ j → get j (remove k m) ≡ get j m
  get-remove_other k j m n = get-remove k j m ∙ ground (arith, eq_iff k j)

different :
    {key : ℕ → String} → ((i j : ℕ) → key i ≡ key j → i ≡ j) → (i j : ℕ) → suc i ≤ j → key i ≢ key j
different injective i j lt same = omega (arith, injective i j same)

module _ {ℓ κ} {A : Type ℓ} {V : Type κ} where
  -- A loop that reads the parameter of its index, whose name differs for each index, stops at an
  -- index that gives nothing, if its fuel exceeds the number of parameters.
  pub collect_stops :
      (key : ℕ → String) (read : ℕ → Option A) (params : HashMap V)
      → ((i j : ℕ) → key i ≡ key j → i ≡ j)
      → (fuel index : ℕ) → suc (length params) ≤ fuel
      → ((i : ℕ) (a : A) → index ≤ i → read i ≡ some a → (v : V) × (get (key i) params ≡ some v))
      → read (index + length (collect read fuel index)) ≡ none
  unfolding collect
  collect_stops key read params injective zero index enough found = absurd (omega arith)
  collect_stops key read params injective (suc fuel) index enough found =
      elim (Option-cases (read index)) [
        | inl e ↦
            let none_read : length (collect read (suc fuel) index) ≡ 0 = rw (collect, e) refl in
            ap read (omega (arith, none_read)) ∙ e
        | inr (a, e) ↦
            let one_read : length (collect read (suc fuel) index)
                ≡ suc (length (collect read fuel (suc index))) =
              rw (collect, e) refl in
            let (v, present) = found index a (omega arith) e in
            let fewer = length-remove_lt (key index) params v present in
            ap read (omega (arith, one_read))
            ∙ collect_stops key read (remove (key index) params) injective fuel (suc index)
                (omega (arith, fewer))
                (λ i b le r.
                  let (w, here) = found i b (omega arith) r in
                  (
                    w,
                    get-remove_other (key index) (key i) params (different injective index i le)
                        ∙ here,
                  ))
      ]
