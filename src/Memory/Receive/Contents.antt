-- ===== src/Memory/Receive/Contents.antt =====
-- About the loops of `receive_messages` in storage/memory.rs: the messages that a queue, the messages
-- in flight and the moves to dead letter queues hold, up to their order and their receive counts.
use mathlib.Core.List.Perm
use mathlib.Core.List.{
  Perm, perm_middle, perm-append_left_iff, perm-append_right_iff, append_assoc, append-nil,
  reverse-cons,
}
use mathlib.Core.Path.{subst}
use lclq.Common.{
  ℕ, zero, suc, String, ◌≡◌, refl, sym, ap, inl, inr, List, [], ◌∷◌, ◌++◌, map, none, reverse, leb,
  arith, Bool-cases, Option-cases,
}
use lclq.Common.HashMap
use lclq.Common.HashMap.{HashMap}
use lclq.Types.{DateTime, Message, QueueConfig}
use lclq.Receipt.{ReceiptCodec, generate_receipt_handle}
use lclq.Memory.State.{StoredMessage, InFlightMessage}
use lclq.Memory.Receive.Selection.{Indexed, chosen, left_over}
use lclq.Memory.Receive.{dlq_target, Taking, delivered, take_message}

-- A message without its receive count, which a delivery changes.
abbrev pub content : Message → Message
content m = record m { receive_count = 0 }

abbrev pub waiting : List StoredMessage → List Message
waiting ms = map (λ m. content m.message) ms

abbrev pub flying : HashMap InFlightMessage → List Message
flying m = map (λ e. content (e.1).message) m

abbrev pub moving : List (String × Message) → List Message
moving moves = map (λ move. content move.1) moves

abbrev pub taken_contents : List Indexed → List Message
taken_contents xs = map (λ e. content (e.1).message) xs

map-append {ℓ κ} :
    {A : Type ℓ} {B : Type κ} (f : A → B) (xs ys : List A) → map f (xs ++ ys) ≡ map f xs ++ map f ys
map-append f [] ys = refl
map-append f (x ∷ xs) ys = ap (◌∷◌ (f x)) (map-append f xs ys)

flying-insert_new :
    (handle : String) (e : InFlightMessage) (m : HashMap InFlightMessage)
    → HashMap.get handle m ≡ none
    → flying (HashMap.insert handle e m) ≡ flying m ++ (content e.message ∷ [])
unfolding HashMap.get HashMap.insert
flying-insert_new handle e [] h = refl
flying-insert_new handle e ((j, w) ∷ m) h = ground (arith, flying-insert_new handle e m)

-- What is chosen and what is left over make up the queue.
pub left_over-Perm :
    (n : ℕ) (now : DateTime) (i : ℕ) (ms : List StoredMessage)
    → Perm (waiting (left_over n now ms) ++ taken_contents (chosen n now i ms)) (waiting ms)
unfolding chosen left_over
left_over-Perm zero now i ms =
    subst (λ l. Perm l (waiting ms)) (sym (append-nil (waiting ms))) (Perm.refl _)
left_over-Perm (suc n) now i [] = Perm.refl _
left_over-Perm (suc n) now i (m ∷ ms) = elim (Bool-cases (leb m.visible_at now)) [
  | inl t ↦ rw t (
      Perm.trans (perm_middle (waiting (left_over n now ms)) _)
        (Perm.cons _ (left_over-Perm n now (suc i) ms)))
  | inr f ↦ rw f (Perm.cons _ (left_over-Perm (suc n) now (suc i) ms))
]

pub reverse-Perm : (xs : List Indexed) → Perm (taken_contents (reverse xs)) (taken_contents xs)
reverse-Perm [] = Perm.refl _
reverse-Perm (x ∷ xs) =
    rw (reverse-cons x xs, map-append (λ e. content (e.1).message) (reverse xs) (x ∷ []))
      (Perm.trans (perm_middle (taken_contents (reverse xs)) []) (
        Perm.cons _ (
          subst (λ l. Perm l (taken_contents xs)) (sym (append-nil (taken_contents (reverse xs))))
            (reverse-Perm xs))))

-- Two parts that are each rearranged, one of them split off from a whole.
pub regroup :
    (w x x' a f g : List Message)
    → Perm g (x ++ (f ++ []))
    → Perm x x'
    → Perm (w ++ x') a
    → Perm (w ++ g) (a ++ f)
regroup w x x' a f g split_off same whole =
    let parts = subst (λ l. Perm g (x ++ l)) (append-nil f) split_off in
    Perm.trans ((perm-append_left_iff w).1 parts) (
      subst (λ l. Perm l (a ++ f)) (append_assoc w x f)
        ((perm-append_right_iff f).1 (Perm.trans ((perm-append_left_iff w).1 same) whole)))

abbrev pub gone : Taking → List Message
gone t = flying t.in_flight ++ moving t.dlq_moves

module _ (codec : ReceiptCodec) (queue_id : String) (config : QueueConfig)
    (expires : DateTime) where
  -- A delivery puts its message in flight or among the moves, and keeps all others.
  pub take_message-Perm :
      (nonce : String) (m : StoredMessage) (t : Taking)
      → HashMap.get (generate_receipt_handle codec queue_id (m.message).id nonce) t.in_flight ≡ none
      → Perm
          (gone (take_message codec queue_id config expires nonce (delivered m) t))
          (content m.message ∷ gone t)
  unfolding take_message
  take_message-Perm nonce m t fresh = elim (Option-cases (dlq_target config (delivered m))) [
    | inl e ↦
        rw
          (
            e,
            take_message,
            flying-insert_new (generate_receipt_handle codec queue_id (m.message).id nonce)
                (record { message = delivered m; visibility_expires_at = expires }) t.in_flight
                fresh,
            append_assoc (flying t.in_flight) (content m.message ∷ []) (moving t.dlq_moves),
          )
          (perm_middle (flying t.in_flight) (moving t.dlq_moves))
    | inr (target, e) ↦
        rw
          (
            e,
            take_message,
            map-append (λ move. content move.1) t.dlq_moves ((target, delivered m) ∷ []),
          )
          (subst (λ l. Perm l (content m.message ∷ gone t))
            (append_assoc (flying t.in_flight) (moving t.dlq_moves) (content m.message ∷ []))
            (Perm.trans (perm_middle (gone t) []) (
              Perm.cons _
                (subst (λ l. Perm l (gone t)) (sym (append-nil (gone t))) (Perm.refl _)))))
  ]
