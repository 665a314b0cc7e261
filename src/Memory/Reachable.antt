-- ===== src/Memory/Reachable.antt =====
-- The in-memory backend of storage/memory.rs under any sequence of calls. A step is what runs under
-- one lock, so that a run of several tasks is one sequence of steps. `send_message` and
-- `send_messages` take the lock for the eviction and again for the rest: besides the whole calls
-- there are steps for their two parts, between which steps of other tasks can come.
use lclq.Common.{ℕ, String, ◌≡◌, List}
use lclq.Types.{DateTime, Message, QueueConfig, ReceiveOptions, SubscriptionConfig}
use lclq.Receipt.{ReceiptCodec}
use lclq.Memory.State.{InMemoryBackend, InMemoryConfig, with_config, on_queue}
use lclq.Memory.Invariant.{IsValid, with_config-IsValid, on_queue-IsValid}
use lclq.Memory.Send.{SendTimes, send_message_locked, send_all, send_message, send_messages}
use lclq.Memory.Send.Valid.{
  send_message_locked-IsValid, send_all-IsValid, send_message-IsValid, send_messages-IsValid,
}
use lclq.Memory.Eviction.{maybe_evict}
use lclq.Memory.Eviction.Valid.{maybe_evict-IsValid}
use lclq.Memory.Receive.{ReceiveReadings, receive_messages, process_expired_visibility}
use lclq.Memory.Receive.Valid.{receive_messages-IsValid, process_expired_visibility-IsValid}
use lclq.Memory.Queues.{create_queue, update_queue, delete_queue, purge_queue}
use lclq.Memory.Queues.Valid.{
  create_queue-IsValid, update_queue-IsValid, delete_queue-IsValid, purge_queue-IsValid,
}
use lclq.Memory.InFlight.{delete_message, change_visibility}
use lclq.Memory.InFlight.Valid.{delete_message-IsValid, change_visibility-IsValid}
use lclq.Memory.Subscriptions.{create_subscription, delete_subscription}
use lclq.Memory.Subscriptions.Valid.{create_subscription-IsValid, delete_subscription-IsValid}

module _ (codec : ReceiptCodec) (content_digest : String → String) where
  -- The calls that change the backend, with what each reads from outside.
  pub data Call : Type 0 where
    creates : QueueConfig → DateTime → Call
    updates : QueueConfig → Call
    deletes purges : String → Call
    sends : String → Message → SendTimes → Call
    sends_batch : String → List (Message × SendTimes) → Call
    evicts : Call
    stores : String → Message → SendTimes → Call
    stores_batch : String → List (Message × SendTimes) → Call
    receives : String → ReceiveOptions → ReceiveReadings → Call
    acknowledges : (queue_id handle : String) → Call
    extends : (queue_id handle : String) → (timeout : ℕ) → DateTime → Call
    expires : String → DateTime → Call
    subscribes : SubscriptionConfig → Call
    unsubscribes : String → Call

  pub step : InMemoryBackend → Call → InMemoryBackend
  step b (creates config now) = (create_queue b config now).1
  step b (updates config) = (update_queue b config).1
  step b (deletes id) = (delete_queue b id).1
  step b (purges id) = (purge_queue b id).1
  step b (sends id m t) = (send_message content_digest b id m t).1
  step b (sends_batch id batch) = (send_messages content_digest b id batch).1
  step b evicts = (maybe_evict b).1
  step b (stores id m t) = (on_queue b id (λ q. send_message_locked content_digest q m t)).1
  step b (stores_batch id batch) = (on_queue b id (λ q. send_all content_digest q batch)).1
  step b (receives id options r) = (receive_messages codec b id options r).1
  step b (acknowledges id handle) = (delete_message codec b id handle).1
  step b (extends id handle timeout now) = (change_visibility codec b id handle timeout now).1
  step b (expires id now) = (process_expired_visibility b id now).1
  step b (subscribes config) = (create_subscription b config).1
  step b (unsubscribes id) = (delete_subscription b id).1

  -- The states that calls lead to from a new backend.
  pub data Reach (c : InMemoryConfig) : InMemoryBackend → Type 0 where
    here : Reach c (with_config c)
    next :
        {b : InMemoryBackend} (b' : InMemoryBackend) (call : Call)
        → Reach c b
        → b' ≡ step b call
        → Reach c b'

  step-IsValid : (b : InMemoryBackend) (call : Call) → IsValid b → IsValid (step b call)
  unfolding step
  step-IsValid b (creates config now) v = create_queue-IsValid b config now v
  step-IsValid b (updates config) v = update_queue-IsValid b config v
  step-IsValid b (deletes id) v = delete_queue-IsValid b id v
  step-IsValid b (purges id) v = purge_queue-IsValid b id v
  step-IsValid b (sends id m t) v = send_message-IsValid content_digest b id m t v
  step-IsValid b (sends_batch id batch) v = send_messages-IsValid content_digest b id batch v
  step-IsValid b evicts v = maybe_evict-IsValid b v
  step-IsValid b (stores id m t) v =
      on_queue-IsValid b id _ v (λ q. send_message_locked-IsValid content_digest id q m t)
  step-IsValid b (stores_batch id batch) v =
      on_queue-IsValid b id _ v (λ q. send_all-IsValid content_digest id q batch)
  step-IsValid b (receives id options r) v = receive_messages-IsValid codec b id options r v
  step-IsValid b (acknowledges id handle) v = delete_message-IsValid codec b id handle v
  step-IsValid b (extends id handle timeout now) v =
      change_visibility-IsValid codec b id handle timeout now v
  step-IsValid b (expires id now) v = process_expired_visibility-IsValid b id now v
  step-IsValid b (subscribes config) v = create_subscription-IsValid b config v
  step-IsValid b (unsubscribes id) v = delete_subscription-IsValid b id v

  -- In every state that calls lead to, in any order and with any readings of the clock, the maps
  -- have unique keys and every queue and subscription stands under its own ID.
  pub Reach-IsValid : {c : InMemoryConfig} {b : InMemoryBackend} → Reach c b → IsValid b
  Reach-IsValid {c} here = with_config-IsValid c
  Reach-IsValid (next {b = b} b' call r e) = rw e (step-IsValid b call (Reach-IsValid r))
