-- ===== src/Memory/Receive/Indices.antt =====
-- About the indices of the messages that `receive_messages` of storage/memory.rs takes.
use mathlib.Core.List.{reverse-cons}
use lclq.Common.{
  ℕ, zero, suc, ◌+◌, ◌≤◌, ◌≡◌, ◌≢◌, refl, sym, List, [], ◌∷◌, ◌++◌, length, reverse, arith,
}
use lclq.Common.Predicates.{All, All-append, All-reverse, All-imp}
use lclq.Memory.State.{StoredMessage}
use lclq.Memory.Receive.Selection.{Indexed, chosen, left_over}

-- Every index is chosen once: they rise from `i` on.
Above : ℕ → List Indexed → Type 0
Above i = All (λ e. i ≤ e.0)

abbrev pub Apart : List Indexed → Type 0
Apart [] = Unit {0}
Apart (e ∷ es) = All (λ e'. e.0 ≢ e'.0) es × Apart es

chosen-Above : (n now i j : ℕ) (ms : List StoredMessage) → i ≤ j → Above i (chosen n now j ms)
unfolding chosen Above
chosen-Above zero now i j ms h = tt
chosen-Above (suc n) now i j [] h = tt
chosen-Above (suc n) now i j (m ∷ ms) h = ground (
  arith,
  chosen-Above n now i (suc j) ms (omega arith),
  chosen-Above (suc n) now i (suc j) ms (omega arith),
)

above-ne : (i : ℕ) (e : Indexed) → suc i ≤ e.0 → i ≢ e.0
above-ne i e h = omega arith

pub chosen-Apart : (n now i : ℕ) (ms : List StoredMessage) → Apart (chosen n now i ms)
unfolding chosen
chosen-Apart zero now i ms = tt
chosen-Apart (suc n) now i [] = tt
chosen-Apart (suc n) now i (m ∷ ms) =
    let later =
      All-imp (λ e. suc i ≤ e.0) (λ e. i ≢ e.0) (above-ne i) (chosen n now (suc i) ms)
        (unfold Above in chosen-Above n now (suc i) (suc i) ms (omega arith)) in
    ground (arith, later, chosen-Apart n now (suc i) ms, chosen-Apart (suc n) now (suc i) ms)

Apart-concat :
    (xs : List Indexed) (e : Indexed) → Apart xs → All (λ e'. e'.0 ≢ e.0) xs → Apart (xs ++ e ∷ [])
Apart-concat [] e a h = (tt, tt)
Apart-concat (x ∷ xs) e a h =
    (All-append (λ e'. x.0 ≢ e'.0) xs (e ∷ []) a.0 (h.0, tt), Apart-concat xs e a.1 h.1)

pub Apart-reverse : (xs : List Indexed) → Apart xs → Apart (reverse xs)
Apart-reverse [] a = tt
Apart-reverse (x ∷ xs) a = rw (reverse-cons x xs) (
    Apart-concat (reverse xs) x (Apart-reverse xs a.1) (
      All-reverse (λ e'. e'.0 ≢ x.0) xs
        (All-imp (λ e'. x.0 ≢ e'.0) _ (λ e' h p. h (sym p)) xs a.0)))

-- The visible messages that are taken and those that stay are all messages of the queue.
pub length-left_over-chosen :
    (n now i : ℕ) (ms : List StoredMessage)
    → length (left_over n now ms) + length (chosen n now i ms) ≡ length ms
unfolding left_over chosen
length-left_over-chosen zero now i ms = omega arith
length-left_over-chosen (suc n) now i [] = refl
length-left_over-chosen (suc n) now i (m ∷ ms) = ground (
  arith,
  length-left_over-chosen n now (suc i) ms,
  length-left_over-chosen (suc n) now (suc i) ms,
)

pub length-chosen-le : (n now i : ℕ) (ms : List StoredMessage) → length (chosen n now i ms) ≤ n
unfolding chosen
length-chosen-le zero now i ms = omega arith
length-chosen-le (suc n) now i [] = omega arith
length-chosen-le (suc n) now i (m ∷ ms) =
    ground (arith, length-chosen-le n now (suc i) ms, length-chosen-le (suc n) now (suc i) ms)
