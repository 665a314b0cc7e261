-- ===== src/Memory/Receive.antt =====
-- storage/memory.rs: `receive_messages` and `process_expired_visibility`, with the return of
-- expired messages that both begin with.
pub mod Selection
pub mod Removal
pub mod Delivery
pub mod Indices
pub mod Tracking
pub mod Expiry
pub mod Contract
pub mod Conservation
pub mod Contents
pub mod Handles
pub mod Valid
use lclq.Common.{
  ℕ, zero, suc, ◌+◌, ◌<◌, min, String, Bool, true, false, List, [], ◌∷◌, ◌++◌, Option, none, some,
  length, get_elem?, erase_idx, leb, ltb, unwrap_or, if◌then◌else◌, reverse,
}
use lclq.Common.HashMap
use lclq.Common.HashMap.{HashMap}
use lclq.Common.Word.{next_u32}
use lclq.Error.{Error, Result, ok, err, queue_not_found}
use lclq.Types.{DateTime, Message, DlqConfig, QueueConfig, ReceiveOptions, seconds}
use lclq.Storage.{ReceivedMessage}
use lclq.Receipt.{ReceiptCodec, generate_receipt_handle}
use lclq.Memory.State.{
  StoredMessage, InFlightMessage, QueueData, InMemoryBackend, on_queue, put_queue,
}

-- The handles of the messages whose time is over.
unfoldable pub expired_handles : DateTime → HashMap InFlightMessage → List String
expired_handles now [] = []
expired_handles now ((handle, m) ∷ rest) =
    if leb m.visibility_expires_at now
    then handle ∷ expired_handles now rest
    else expired_handles now rest

-- One round of the loop over those handles.
requeue_one : DateTime → QueueData → String → QueueData
requeue_one now queue handle = elim (HashMap.get handle queue.in_flight_messages) [
  | none ↦ queue
  | some in_flight ↦ record queue {
    available_messages =
        queue.available_messages ++ (record { message = in_flight.message; visible_at = now }) ∷ [];
    in_flight_messages = HashMap.remove handle queue.in_flight_messages;
  }
]

requeue_all : DateTime → QueueData → List String → QueueData
unfolding requeue_one
requeue_all now queue [] = queue
requeue_all now queue (handle ∷ handles) = requeue_all now (requeue_one now queue handle) handles

unfoldable pub requeue_expired : DateTime → QueueData → QueueData
unfolding requeue_all expired_handles
requeue_expired now queue = requeue_all now queue (expired_handles now queue.in_flight_messages)

-- How many rounds find their handle: the number that `process_expired_visibility` counts.
pub count_requeued : DateTime → QueueData → List String → ℕ
count_requeued now queue [] = 0
count_requeued now queue (handle ∷ handles) =
    let rest = count_requeued now (requeue_one now queue handle) handles in
    elim (HashMap.get handle queue.in_flight_messages) [ none ↦ rest | some _ ↦ suc rest ]

unfoldable pub process_expired_visibility :
    InMemoryBackend → String → DateTime → Result ℕ × InMemoryBackend
unfolding requeue_expired count_requeued
process_expired_visibility b queue_id now = on_queue b queue_id λ queue. (
  ok (count_requeued now queue (expired_handles now queue.in_flight_messages)),
  requeue_expired now queue,
)

-- The loop that collects the indices of visible messages: from index `idx` on, with those found.
visible_from : (max : ℕ) → DateTime → ℕ → List ℕ → List StoredMessage → List ℕ
visible_from max now idx found [] = found
visible_from max now idx found (m ∷ ms) = elim (leb m.visible_at now) [
  | false ↦ visible_from max now (suc idx) found ms
  | true ↦ elim (leb max (length (found ++ idx ∷ []))) [
    | true ↦ found ++ idx ∷ []
    | false ↦ visible_from max now (suc idx) (found ++ idx ∷ []) ms
  ]
]

unfoldable pub visible_indices : (max : ℕ) → DateTime → List StoredMessage → List ℕ
unfolding visible_from
visible_indices max now messages = visible_from max now 0 [] messages

-- Whether a message that has been received so often goes to the dead letter queue, and to which.
unfoldable pub dlq_target : QueueConfig → Message → Option String
dlq_target config message = elim config.dlq_config [
  | none ↦ none
  | some dlq ↦
      if ltb dlq.max_receive_count message.receive_count then some dlq.target_queue_id else none
]

-- What a call reads besides its arguments: the clock at its beginning, the clock again, the nonces
-- that the UUIDs give and the clock at the moves; the last two by the index of the message among
-- the available ones, and by the position of the move.
pub record ReceiveReadings : Type 0 where
  pub accessed : DateTime
  pub now : DateTime
  pub nonce : ℕ → String
  pub moved : ℕ → DateTime

-- The variables of the loop that takes the visible messages.
pub record Taking : Type 0 where
  pub available : List StoredMessage
  pub in_flight : HashMap InFlightMessage
  pub dlq_moves : List (String × Message)
  pub received : List ReceivedMessage

-- A message as it is after one more delivery.
abbrev pub delivered : StoredMessage → Message
delivered m = record (m.message) { receive_count = next_u32 (m.message).receive_count }

module _ (codec : ReceiptCodec) (queue_id : String) (config : QueueConfig) where
  -- The body of that loop, for a message that has been removed.
  pub take_message : (expires : DateTime) → (nonce : String) → Message → Taking → Taking
  unfolding dlq_target
  take_message expires nonce message t = elim (dlq_target config message) [
    | some target ↦ record t { dlq_moves = t.dlq_moves ++ (target, message) ∷ [] }
    | none ↦
        let handle = generate_receipt_handle codec queue_id message.id nonce in
        record t {
          in_flight =
              HashMap.insert handle (record { message = message; visibility_expires_at = expires })
                t.in_flight;
          received = t.received ++ (record { message = message; receipt_handle = handle }) ∷ [];
        }
  ]

  take_index : (expires : DateTime) → (nonce : ℕ → String) → Taking → ℕ → Taking
  unfolding take_message
  take_index expires nonce t idx = elim (get_elem? t.available idx) [
    | none ↦ t
    | some m ↦
        take_message expires (nonce idx) (delivered m)
          (record t { available = erase_idx t.available idx })
  ]

  -- The loop over the indices, in the order in which they are given.
  pub take_indices : (expires : DateTime) → (nonce : ℕ → String) → Taking → List ℕ → Taking
  unfolding take_index
  take_indices expires nonce t [] = t
  take_indices expires nonce t (idx ∷ rest) =
      take_indices expires nonce (take_index expires nonce t idx) rest

-- The move of one message to its dead letter queue; it is dropped if there is no such queue.
move_to_dlq : DateTime → DateTime → HashMap QueueData → String × Message → HashMap QueueData
move_to_dlq now moved queues (dlq_queue_id, message) = elim (HashMap.get dlq_queue_id queues) [
  | none ↦ queues
  | some dlq ↦
      let dlq_message = record message {
        sent_timestamp = moved;
        receive_count = 0;
        queue_id = dlq_queue_id;
      } in
      HashMap.insert dlq_queue_id
        (record dlq {
          available_messages =
              dlq.available_messages ++ (record { message = dlq_message; visible_at = now }) ∷ [];
        })
        queues
]

move_all :
    DateTime → (ℕ → DateTime) → ℕ → HashMap QueueData → List (String × Message) → HashMap QueueData
unfolding move_to_dlq
move_all now moved i queues [] = queues
move_all now moved i queues (move ∷ moves) =
    move_all now moved (suc i) (move_to_dlq now (moved i) queues move) moves

abbrev pub after_taking : QueueData → Taking → QueueData
after_taking queue t = record queue {
  available_messages = t.available;
  in_flight_messages = t.in_flight;
}

module _ (codec : ReceiptCodec) where
  -- The part that works on the one queue. The loop runs over the indices in reverse.
  unfoldable pub take_visible : QueueData → String → ReceiveOptions → ReceiveReadings → Taking
  unfolding take_indices visible_indices
  take_visible queue queue_id options r =
      let visibility_timeout =
        unwrap_or options.visibility_timeout (queue.config).visibility_timeout in
      take_indices codec queue_id queue.config (r.now + seconds visibility_timeout) r.nonce
        (record {
          available = queue.available_messages;
          in_flight = queue.in_flight_messages;
          dlq_moves = [];
          received = [];
        })
        (reverse (visible_indices (min options.max_messages 10) r.now queue.available_messages))

  unfoldable pub receive_messages :
      InMemoryBackend
      → String
      → ReceiveOptions
      → ReceiveReadings
      → Result (List ReceivedMessage) × InMemoryBackend
  unfolding take_visible requeue_expired move_all
  receive_messages b queue_id options r = elim (HashMap.get queue_id b.queues) [
    | none ↦ (err (queue_not_found queue_id), b)
    | some queue₀ ↦
        let queue = requeue_expired r.now (record queue₀ { last_access = r.accessed }) in
        let t = take_visible queue queue_id options r in
        let queues = HashMap.insert queue_id (after_taking queue t) b.queues in
        (ok (reverse t.received), record b { queues = move_all r.now r.moved 0 queues t.dlq_moves })
  ]
