-- ===== src/Memory/Receive/Selection.antt =====
-- About the loop of `receive_messages` in storage/memory.rs that collects the indices of visible
-- messages, and the list of those messages.
use mathlib.Core.List.{append_assoc, append-nil}
use mathlib.Core.Path.{subst}
use lclq.Common.{
  ℕ, zero, suc, ◌+◌, ◌≤◌, max, ◌≡◌, refl, sym, ◌⊎◌, inr, List, [], ◌∷◌, ◌++◌, length, length-append,
  leb, if◌then◌else◌, map, arith,
}
use lclq.Types.{DateTime}
use lclq.Memory.State.{StoredMessage}
use lclq.Memory.Receive.{visible_from, visible_indices}

abbrev pub Indexed : Type 0
Indexed = ℕ × StoredMessage

-- The first `n` messages that are visible at a time, with their indices from `i` on, and the
-- messages that stay.
unfoldable pub chosen : (n : ℕ) → DateTime → (i : ℕ) → List StoredMessage → List Indexed
chosen zero now i ms = []
chosen (suc n) now i [] = []
chosen (suc n) now i (m ∷ ms) =
    let hit = chosen n now (suc i) ms in
    let miss = chosen (suc n) now (suc i) ms in if leb m.visible_at now then (i, m) ∷ hit else miss

unfoldable pub left_over : (n : ℕ) → DateTime → List StoredMessage → List StoredMessage
left_over zero now ms = ms
left_over (suc n) now [] = []
left_over (suc n) now (m ∷ ms) =
    let hit = left_over n now ms in
    let miss = left_over (suc n) now ms in if leb m.visible_at now then hit else m ∷ miss

abbrev pub indices : List Indexed → List ℕ
indices = map (λ e. e.0)

chosen_zero : (now i : ℕ) (ms : List StoredMessage) → chosen 0 now i ms ≡ []
unfolding chosen
chosen_zero now i [] = refl
chosen_zero now i (m ∷ ms) = refl

left_over_zero : (now : ℕ) (ms : List StoredMessage) → left_over 0 now ms ≡ ms
unfolding left_over
left_over_zero now [] = refl
left_over_zero now (m ∷ ms) = refl

-- The number of indices still wanted, and the bound at which the loop stops.
abbrev Wanted : (limit found k : ℕ) → Type 0
Wanted limit found k = (limit ≤ found + suc k) × ((k ≡ 0) ⊎ (found + suc k ≤ limit))

visible_from-chosen :
    (limit now i k : ℕ) (found : List ℕ) (ms : List StoredMessage)
    → Wanted limit (length found) k
    → visible_from limit now i found ms ≡ found ++ indices (chosen (suc k) now i ms)
unfolding visible_from chosen
visible_from-chosen limit now i k found [] w = sym (append-nil found)
visible_from-chosen limit now i zero found (m ∷ ms) w =
    ground
      (arith, length-append found (i ∷ []), visible_from-chosen limit now (suc i) zero found ms w)
visible_from-chosen limit now i (suc k) found (m ∷ ms) w =
    let grown = length-append found (i ∷ []) in
    ground (
      arith,
      grown,
      append_assoc found (i ∷ []) (indices (chosen (suc k) now (suc i) ms)),
      visible_from-chosen limit now (suc i) (suc k) found ms w,
      visible_from-chosen limit now (suc i) k (found ++ i ∷ []) ms (omega (arith, grown)),
    )

-- What the loop's limit lets through: at least one message.
abbrev pub allowance : ℕ → ℕ
allowance limit = max 1 limit

allowance-suc : (k : ℕ) → suc k ≡ allowance (suc k)
allowance-suc k = omega arith

pub visible_indices-chosen :
    (limit now : ℕ) (ms : List StoredMessage)
    → visible_indices limit now ms ≡ indices (chosen (allowance limit) now 0 ms)
unfolding visible_indices
visible_indices-chosen zero now ms = visible_from-chosen 0 now 0 0 [] ms (omega arith)
visible_indices-chosen (suc k) now ms =
    subst (λ n. visible_from (suc k) now 0 [] ms ≡ indices (chosen n now 0 ms)) (allowance-suc k)
      (visible_from-chosen (suc k) now 0 k [] ms (omega arith, inr (omega arith)))
