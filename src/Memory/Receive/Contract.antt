-- ===== src/Memory/Receive/Contract.antt =====
-- About `receive_messages` of storage/memory.rs as its callers see it: the answer and its length.
use lclq.Common.{
  ◌≤◌, min, max, String, ◌≡◌, refl, ap, inl, inr, List, [], ◌∷◌, Option, none, some, length, arith,
  Option-cases,
}
use lclq.Common.HashMap
use lclq.Common.HashMap.{HashMap, HasUniqueKeys, get-insert, get-insert_self}
use lclq.Error.{Result, ok, err, queue_not_found}
use lclq.Types.{ReceiveOptions}
use lclq.Storage.{ReceivedMessage}
use lclq.Receipt.{ReceiptCodec}
use lclq.Memory.State.{QueueData, InMemoryBackend}
use lclq.Memory.Receive.Delivery.{results, handed_out_as, taken, take_visible-TakesInOrder}
use lclq.Memory.Receive.Indices.{length-chosen-le}
use lclq.Memory.Receive.{requeue_expired, ReceiveReadings, receive_messages}

-- The queue as a call finds it: touched, and with its expired messages back.
abbrev pub refreshed : ReceiveReadings → QueueData → QueueData
refreshed r q = requeue_expired r.now (record q { last_access = r.accessed })

module _ (codec : ReceiptCodec) (b : InMemoryBackend) (queue_id : String) (options : ReceiveOptions)
    (r : ReceiveReadings) where
  -- The answer is the visible messages, in the order of the queue, as many as the limit allows,
  -- without those that go to the dead letter queue; an unknown queue is an error that changes
  -- nothing.
  abbrev pub answer : Option QueueData → Result (List ReceivedMessage)
  answer none = err (queue_not_found queue_id)
  answer (some q) =
      let q' = refreshed r q in
      ok (results (handed_out_as codec queue_id (q'.config) r.nonce) (taken options r q'))

  -- The answer of receive_messages is the visible messages in the order of the queue, as many as
  -- the limit allows, without those that go to the dead letter queue, each with its new receive
  -- count and a handle of its own; an unknown queue is QueueNotFound.
  pub receive_messages-in_order :
      (receive_messages codec b queue_id options r).0 ≡ answer (HashMap.get queue_id b.queues)
  unfolding receive_messages
  receive_messages-in_order = elim (Option-cases (HashMap.get queue_id b.queues)) [
    | inl e ↦ rw (e, receive_messages) refl
    | inr (q, e) ↦
        rw (e, receive_messages)
          (ap ok (take_visible-TakesInOrder codec queue_id options r (refreshed r q)).handed_out)
  ]

length-results-le {ℓ κ} :
    {A : Type ℓ} {B : Type κ} (f : A → Option B) (xs : List A) → length (results f xs) ≤ length xs
length-results-le f [] = omega arith
length-results-le f (x ∷ xs) = ground (arith, length-results-le f xs)

-- A successful receive hands out at most ten messages and at most as many as asked for, except
-- that it may hand out one where none was asked for.
pub length-receive_messages :
    (codec : ReceiptCodec) (b b' : InMemoryBackend) (queue_id : String) (options : ReceiveOptions)
    (r : ReceiveReadings) (ms : List ReceivedMessage)
    → receive_messages codec b queue_id options r ≡ (ok ms, b')
    → length ms ≤ max 1 (min options.max_messages 10)
length-receive_messages codec b b' queue_id options r ms h =
    elim (Option-cases (HashMap.get queue_id b.queues)) [
      | inl e ↦ absurd (ground (arith, receive_messages-in_order codec b queue_id options r))
      | inr (q, e) ↦
          let q' = refreshed r q in
          let limit = max 1 (min options.max_messages 10) in
          let bound =
            length-results-le (handed_out_as codec queue_id (q'.config) r.nonce)
              (taken options r q') in
          let picked = length-chosen-le limit r.now 0 q'.available_messages in
          let answered : ms
              ≡ results (handed_out_as codec queue_id (q'.config) r.nonce) (taken options r q') =
            ground (arith, receive_messages-in_order codec b queue_id options r) in
          rw answered (omega (arith, bound, picked))
    ]
