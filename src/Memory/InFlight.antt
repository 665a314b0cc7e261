-- ===== src/Memory/InFlight.antt =====
-- storage/memory.rs: `delete_message` and `change_visibility`, which act on a message in flight by
-- its receipt handle.
pub mod Valid
pub mod Lifecycle
use lclq.Common.{ℕ, ◌+◌, String, Option, none, some, str_eq, if◌then◌else◌}
use lclq.Common.HashMap
use lclq.Error.{Error, invalid_receipt_handle, Result, ok, err}
use lclq.Types.{DateTime, seconds}
use lclq.Receipt.{ReceiptHandleData, ReceiptCodec, parse_receipt_handle}
use lclq.Memory.State.{QueueData, InMemoryBackend, on_queue}

-- The handle's checks, which come before the lock; then `f` is done with the queue.
with_handle :
    InMemoryBackend
    → String
    → Result ReceiptHandleData
    → (QueueData → Result (Unit {0}) × QueueData)
    → Result (Unit {0}) × InMemoryBackend
with_handle b queue_id (err e) f = (err e, b)
with_handle b queue_id (ok d) f =
    if str_eq d.queue_id queue_id then on_queue b queue_id f else (err invalid_receipt_handle, b)

remove_in_flight : String → QueueData → Result (Unit {0}) × QueueData
remove_in_flight handle queue = elim (HashMap.get handle queue.in_flight_messages) [
  | none ↦ (err invalid_receipt_handle, queue)
  | some _ ↦
      (ok tt, record queue { in_flight_messages = HashMap.remove handle queue.in_flight_messages })
]

extend_in_flight : String → DateTime → QueueData → Result (Unit {0}) × QueueData
extend_in_flight handle expires queue = elim (HashMap.get handle queue.in_flight_messages) [
  | none ↦ (err invalid_receipt_handle, queue)
  | some m ↦ (
    ok tt,
    record queue {
      in_flight_messages =
          HashMap.insert handle (record m { visibility_expires_at = expires })
            queue.in_flight_messages;
    },
  )
]

module _ (codec : ReceiptCodec) where
  unfoldable pub delete_message :
      InMemoryBackend → String → String → Result (Unit {0}) × InMemoryBackend
  unfolding with_handle remove_in_flight
  delete_message b queue_id handle =
      with_handle b queue_id (parse_receipt_handle codec handle) (remove_in_flight handle)

  -- `now` is the clock when the visibility is set.
  unfoldable pub change_visibility :
      InMemoryBackend
      → String
      → String
      → (visibility_timeout : ℕ) → (now : DateTime) → Result (Unit {0}) × InMemoryBackend
  unfolding with_handle extend_in_flight
  change_visibility b queue_id handle visibility_timeout now =
      with_handle b queue_id (parse_receipt_handle codec handle)
        (extend_in_flight handle (now + seconds visibility_timeout))
