-- ===== src/Memory/Receive/Conservation.antt =====
-- `receive_messages` of storage/memory.rs and the number of messages that the backend holds.
use lclq.Common.{
  ℕ, suc, ◌+◌, String, ◌≡◌, refl, inl, inr, List, [], ◌∷◌, Option, none, some, length,
  length-append, arith, Option-cases, eq_iff,
}
use lclq.Common.HashMap
use lclq.Common.HashMap.{HashMap, HasUniqueKeys, get-insert, get-insert_self}
use lclq.Types.{DateTime, Message, ReceiveOptions}
use lclq.Receipt.{ReceiptCodec}
use lclq.Memory.State.{QueueData, InMemoryBackend, held, sum_held, total_message_count}
use lclq.Memory.Totals.{sum_held-insert}
use lclq.Memory.Receive.Tracking.{FreshNonces, take_visible-TracksAll}
use lclq.Memory.Receive.Contract.{refreshed}
use lclq.Memory.Receive.Expiry.{returned, requeue_expired_lem, length-returned-still}
use lclq.Memory.Receive.{
  ReceiveReadings, Taking, take_visible, after_taking, move_to_dlq, move_all, receive_messages,
}

abbrev absent : Option QueueData → ℕ
absent none = 1
absent (some _) = 0

-- The moves whose dead letter queue is missing: their messages are dropped.
abbrev pub lost : HashMap QueueData → List (String × Message) → ℕ
lost queues [] = 0
lost queues ((target, m) ∷ moves) = absent (HashMap.get target queues) + lost queues moves

lost-insert :
    (queues : HashMap QueueData) (k : String) (q q' : QueueData) (moves : List (String × Message))
    → HashMap.get k queues ≡ some q
    → lost (HashMap.insert k q' queues) moves ≡ lost queues moves
lost-insert queues k q q' [] h = refl
lost-insert queues k q q' ((target, m) ∷ moves) h =
    ground (arith, get-insert k target q' queues, eq_iff k target, lost-insert queues k q q' moves)

move_to_dlq-sum :
    (now moved : DateTime) (queues : HashMap QueueData) (target : String) (m : Message)
    → sum_held (move_to_dlq now moved queues (target, m)) + absent (HashMap.get target queues)
      ≡ suc (sum_held queues)
unfolding move_to_dlq
move_to_dlq-sum now moved queues target m = elim (Option-cases (HashMap.get target queues)) [
  | inl e ↦ rw (e, move_to_dlq) (omega arith)
  | inr (q, e) ↦
      rw (e, move_to_dlq)
        (omega (arith, sum_held-insert target q _ queues e, length-append q.available_messages _))
]

lost-move_to_dlq :
    (now moved : DateTime) (queues : HashMap QueueData) (target : String) (m : Message)
    (moves : List (String × Message))
    → lost (move_to_dlq now moved queues (target, m)) moves ≡ lost queues moves
unfolding move_to_dlq
lost-move_to_dlq now moved queues target m moves = elim (Option-cases (HashMap.get target queues)) [
  | inl e ↦ rw (e, move_to_dlq) refl
  | inr (q, e) ↦ rw (e, move_to_dlq) (lost-insert queues target q _ moves e)
]

-- Every move adds a message, except those that are dropped.
move_all-sum :
    (now : DateTime) (moved : ℕ → DateTime) (i : ℕ) (queues : HashMap QueueData)
    (moves : List (String × Message))
    → sum_held (move_all now moved i queues moves) + lost queues moves
      ≡ sum_held queues + length moves
unfolding move_all
move_all-sum now moved i queues [] = refl
move_all-sum now moved i queues ((target, m) ∷ moves) = omega (
  arith,
  move_all-sum now moved (suc i) (move_to_dlq now (moved i) queues (target, m)) moves,
  lost-move_to_dlq now (moved i) queues target m moves,
  move_to_dlq-sum now (moved i) queues target m,
)

held-refreshed :
    (r : ReceiveReadings) (q : QueueData)
    → HasUniqueKeys q.in_flight_messages
    → held (refreshed r q) ≡ held q
held-refreshed r q u =
    rw ((requeue_expired_lem r.now (record q { last_access = r.accessed }) u).0) (
      omega (
        arith,
        length-append q.available_messages (returned r.now q.in_flight_messages),
        length-returned-still r.now q.in_flight_messages,
      ))

module _ (codec : ReceiptCodec) (b : InMemoryBackend) (queue_id : String) (options : ReceiveOptions)
    (r : ReceiveReadings) (q : QueueData) where
  abbrev outcome : Taking
  outcome = take_visible codec (refreshed r q) queue_id options r

  -- The messages that one call drops.
  pub dropped : ℕ
  dropped =
      lost (HashMap.insert queue_id (after_taking (refreshed r q) outcome) b.queues)
        outcome.dlq_moves

  -- For a queue that exists and whose handles are unique, a receive with fresh nonces keeps the
  -- number of messages of the backend, available and in flight, except for the messages over the
  -- receive count of a queue whose dead letter queue is missing, which it drops.
  pub total-receive_messages :
      HashMap.get queue_id b.queues ≡ some q
      → HasUniqueKeys q.in_flight_messages
      → FreshNonces codec queue_id options r (refreshed r q)
      → total_message_count (receive_messages codec b queue_id options r).1 + dropped
        ≡ total_message_count b
  unfolding receive_messages dropped
  total-receive_messages found u fresh =
      rw (found, receive_messages)
        (omega (
          arith,
          move_all-sum r.now r.moved 0
              (HashMap.insert queue_id (after_taking (refreshed r q) outcome) b.queues)
              outcome.dlq_moves,
          sum_held-insert queue_id q (after_taking (refreshed r q) outcome) b.queues found,
          (take_visible-TracksAll codec queue_id options r (refreshed r q) fresh).no_loss,
          held-refreshed r q u,
        ))
