-- ===== src/Common/Numbered.antt =====
-- A loop that reads the parameters numbered 1, 2, 3, … until one is missing. The fuel is a bound on
-- the number of parameters.
pub mod Complete
use Prim.Native.Nat.{ℕ, zero, suc}
use mathlib.Core.List.{List, [], ◌∷◌}
use mathlib.Core.Option.{Option, none, some}

unfoldable pub collect {ℓ} : {A : Type ℓ} → (ℕ → Option A) → (fuel index : ℕ) → List A
collect read zero index = []
collect read (suc fuel) index = elim (read index) [
  | none ↦ []
  | some a ↦ a ∷ collect read fuel (suc index)
]
