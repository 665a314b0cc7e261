-- ===== src/Memory/InFlight/Lifecycle.antt =====
-- About a message of the in-memory backend of storage/memory.rs after it was handed out: its handle
-- and its deletion.
use lclq.Common.{String, ◌≡◌, some, eq_refl}
use lclq.Common.HashMap
use lclq.Common.HashMap.{
  HashMap, HasUniqueKeys, get-insert_self, get-remove_self, get-insert, length-remove,
}
use lclq.Error.{invalid_receipt_handle, ok, err}
use lclq.Receipt.{ReceiptCodec, generate_receipt_handle}
use lclq.Receipt.Authentic.{parse-generate_receipt_handle}
use lclq.Memory.State.{QueueData, InFlightMessage, InMemoryBackend, on_queue, put_queue}
use lclq.Memory.InFlight.{with_handle, remove_in_flight, delete_message}

module _ (codec : ReceiptCodec) (b : InMemoryBackend) (id : String) (message_id nonce : String)
    (q : QueueData) (x : InFlightMessage) where
  abbrev handle : String
  handle = generate_receipt_handle codec id message_id nonce

  -- The queue without the message.
  abbrev without : QueueData
  without = record q { in_flight_messages = HashMap.remove handle q.in_flight_messages }

  -- A message in flight is deleted by its handle once: the first delete of a handle made for its
  -- queue succeeds and removes the entry, the second is InvalidReceiptHandle and leaves the queue
  -- as it is.
  pub delete_message_once :
      HashMap.get id b.queues ≡ some q
      → HashMap.get handle q.in_flight_messages ≡ some x
      → (delete_message codec b id handle ≡ (ok tt, put_queue b id without))
        × (delete_message codec (put_queue b id without) id handle
            ≡ (err invalid_receipt_handle, put_queue (put_queue b id without) id without))
  unfolding delete_message with_handle
  delete_message_once found held_there = (
    rw (
      parse-generate_receipt_handle codec id message_id nonce,
      eq_refl id,
      found,
      on_queue,
      held_there,
      remove_in_flight,
    ),
    rw (
      parse-generate_receipt_handle codec id message_id nonce,
      eq_refl id,
      get-insert_self id without b.queues,
      on_queue,
      get-remove_self handle q.in_flight_messages,
      remove_in_flight,
    ),
  )
