-- ===== src/Memory/Receive/Valid.antt =====
-- About `receive_messages` and `process_expired_visibility` of storage/memory.rs and the
-- well-formedness of the backend.
use lclq.Common.{
  ℕ, suc, ◌+◌, min, reverse, unwrap_or, String, inl, inr, List, [], ◌∷◌, Option-cases, get_elem?,
  erase_idx,
}
use lclq.Common.HashMap
use lclq.Common.HashMap.{HashMap, HasUniqueKeys, insert-HasUniqueKeys, remove-HasUniqueKeys}
use lclq.Types.{DateTime, Message, QueueConfig, ReceiveOptions, seconds}
use lclq.Receipt.{ReceiptCodec}
use lclq.Memory.State.{QueueData, InMemoryBackend}
use lclq.Memory.Invariant.{
  QueueIsValid, QueuesAreValid, IsValid, QueuesAreValid-get, QueuesAreValid-insert,
  with_queues-IsValid, on_queue-IsValid,
}
use lclq.Memory.Receive.{
  visible_indices, requeue_one, requeue_all, requeue_expired, expired_handles,
  process_expired_visibility, dlq_target, Taking, delivered, take_message, take_index, take_indices,
  take_visible, after_taking, move_to_dlq, move_all, ReceiveReadings, receive_messages,
}

requeue_one-IsValid :
    (id : String) (now : DateTime) (q : QueueData) (h : String)
    → QueueIsValid id q
    → QueueIsValid id (requeue_one now q h)
unfolding requeue_one
requeue_one-IsValid id now q h v = elim (Option-cases (HashMap.get h q.in_flight_messages)) [
  | inl e ↦ rw (e, requeue_one) v
  | inr (x, e) ↦
      rw (e, requeue_one)
        (record {
          own_id = v.own_id;
          handles_unique = remove-HasUniqueKeys h q.in_flight_messages v.handles_unique;
          dedup_ids_unique = v.dedup_ids_unique;
        })
]

requeue_all-IsValid :
    (id : String) (now : DateTime) (q : QueueData) (hs : List String)
    → QueueIsValid id q
    → QueueIsValid id (requeue_all now q hs)
unfolding requeue_all
requeue_all-IsValid id now q [] v = v
requeue_all-IsValid id now q (h ∷ hs) v =
    requeue_all-IsValid id now (requeue_one now q h) hs (requeue_one-IsValid id now q h v)

requeue_expired-IsValid :
    (id : String) (now : DateTime) (q : QueueData)
    → QueueIsValid id q
    → QueueIsValid id (requeue_expired now q)
unfolding requeue_expired
requeue_expired-IsValid id now q v =
    requeue_all-IsValid id now q (expired_handles now q.in_flight_messages) v

module _ (codec : ReceiptCodec) (queue_id : String) (config : QueueConfig)
    (expires : DateTime) where
  take_message_unique :
      (nonce : String) (m : Message) (t : Taking)
      → HasUniqueKeys t.in_flight
      → HasUniqueKeys (take_message codec queue_id config expires nonce m t).in_flight
  unfolding take_message
  take_message_unique nonce m t u = elim (Option-cases (dlq_target config m)) [
    | inl e ↦ rw (e, take_message) (insert-HasUniqueKeys _ _ t.in_flight u)
    | inr (target, e) ↦ rw (e, take_message) u
  ]

  take_index_unique :
      (nonce : ℕ → String) (t : Taking) (i : ℕ)
      → HasUniqueKeys t.in_flight
      → HasUniqueKeys (take_index codec queue_id config expires nonce t i).in_flight
  unfolding take_index
  take_index_unique nonce t i u = elim (Option-cases (get_elem? t.available i)) [
    | inl e ↦ rw (e, take_index) u
    | inr (m, e) ↦
        rw (e, take_index)
          (take_message_unique (nonce i) (delivered m)
            (record t { available = erase_idx t.available i }) u)
  ]

  take_indices_unique :
      (nonce : ℕ → String) (t : Taking) (is : List ℕ)
      → HasUniqueKeys t.in_flight
      → HasUniqueKeys (take_indices codec queue_id config expires nonce t is).in_flight
  unfolding take_indices
  take_indices_unique nonce t [] u = u
  take_indices_unique nonce t (i ∷ is) u =
      take_indices_unique nonce (take_index codec queue_id config expires nonce t i) is
        (take_index_unique nonce t i u)

after_taking-IsValid :
    (codec : ReceiptCodec) (id : String) (q : QueueData) (options : ReceiveOptions)
    (r : ReceiveReadings)
    → QueueIsValid id q
    → QueueIsValid id (after_taking q (take_visible codec q id options r))
unfolding take_visible
after_taking-IsValid codec id q options r v = record {
  own_id = v.own_id;
  handles_unique =
      take_indices_unique codec id q.config
        (r.now + seconds (unwrap_or options.visibility_timeout (q.config).visibility_timeout))
        r.nonce
        (record {
          available = q.available_messages;
          in_flight = q.in_flight_messages;
          dlq_moves = [];
          received = [];
        })
        (reverse (visible_indices (min options.max_messages 10) r.now q.available_messages))
        v.handles_unique;
  dedup_ids_unique = v.dedup_ids_unique;
}

move_to_dlq-IsValid :
    (now moved : DateTime) (queues : HashMap QueueData) (move : String × Message)
    → QueuesAreValid queues
    → QueuesAreValid (move_to_dlq now moved queues move)
unfolding move_to_dlq
move_to_dlq-IsValid now moved queues (target, m) v =
    elim (Option-cases (HashMap.get target queues)) [
      | inl e ↦ rw (e, move_to_dlq) v
      | inr (q, e) ↦
          let old = QueuesAreValid-get queues target q v e in
          rw (e, move_to_dlq)
            (QueuesAreValid-insert queues target _ v (record {
              own_id = old.own_id;
              handles_unique = old.handles_unique;
              dedup_ids_unique = old.dedup_ids_unique;
            }))
    ]

move_all-IsValid :
    (now : DateTime) (moved : ℕ → DateTime) (i : ℕ) (queues : HashMap QueueData)
    (moves : List (String × Message))
    → QueuesAreValid queues
    → QueuesAreValid (move_all now moved i queues moves)
unfolding move_all
move_all-IsValid now moved i queues [] v = v
move_all-IsValid now moved i queues (move ∷ moves) v =
    move_all-IsValid now moved (suc i) (move_to_dlq now (moved i) queues move) moves
      (move_to_dlq-IsValid now (moved i) queues move v)

pub receive_messages-IsValid :
    (codec : ReceiptCodec) (b : InMemoryBackend) (id : String) (options : ReceiveOptions)
    (r : ReceiveReadings)
    → IsValid b
    → IsValid (receive_messages codec b id options r).1
unfolding receive_messages
receive_messages-IsValid codec b id options r v = elim (Option-cases (HashMap.get id b.queues)) [
  | inl e ↦ rw (e, receive_messages) v
  | inr (q, e) ↦
      let old = QueuesAreValid-get b.queues id q v.queues_valid e in
      let touched : QueueIsValid id (record q { last_access = r.accessed }) = record {
        own_id = old.own_id;
        handles_unique = old.handles_unique;
        dedup_ids_unique = old.dedup_ids_unique;
      } in
      let q' = requeue_expired r.now (record q { last_access = r.accessed }) in
      let stays =
        after_taking-IsValid codec id q' options r (requeue_expired-IsValid id r.now _ touched) in
      rw (e, receive_messages)
        (with_queues-IsValid b _ v (
          move_all-IsValid r.now r.moved 0 _ (take_visible codec q' id options r).dlq_moves
            (QueuesAreValid-insert b.queues id _ v.queues_valid stays)))
]

pub process_expired_visibility-IsValid :
    (b : InMemoryBackend) (id : String) (now : DateTime)
    → IsValid b
    → IsValid (process_expired_visibility b id now).1
unfolding process_expired_visibility
process_expired_visibility-IsValid b id now v =
    on_queue-IsValid b id _ v (requeue_expired-IsValid id now)
