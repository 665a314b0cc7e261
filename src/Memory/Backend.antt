-- ===== src/Memory/Backend.antt =====
-- storage/memory.rs: the in-memory backend as a `StorageBackend`, for what one call of each operation
-- reads from outside.
use lclq.Common.{ℕ, suc, String, List, [], ◌∷◌}
use lclq.Types.{DateTime, Message}
use lclq.Storage.{StorageBackend}
use lclq.Receipt.{ReceiptCodec}
use lclq.Memory.State.{InMemoryBackend}
use lclq.Memory.Send.{SendTimes, send_message, send_messages}
use lclq.Memory.Receive.{ReceiveReadings, receive_messages, process_expired_visibility}
use lclq.Memory.Queues.{
  create_queue, get_queue, update_queue, delete_queue, list_queues, purge_queue, get_stats,
}
use lclq.Memory.InFlight.{delete_message, change_visibility}
use lclq.Memory.Subscriptions.{
  create_subscription, get_subscription, delete_subscription, list_subscriptions, health_check,
}

-- `sending` is indexed by the position of the message in a batch.
pub record BackendReadings : Type 0 where
  pub creating : DateTime
  pub sending : ℕ → SendTimes
  pub receiving : ReceiveReadings
  pub changing : DateTime
  pub expiring : DateTime

abbrev timed : (ℕ → SendTimes) → ℕ → List Message → List (Message × SendTimes)
timed times i [] = []
timed times i (m ∷ ms) = (m, times i) ∷ timed times (suc i) ms

abbrev pub memory_backend :
    ReceiptCodec
    → (content_digest : String → String) → BackendReadings
    → StorageBackend InMemoryBackend
memory_backend codec content_digest r = record {
  create_queue = λ b config. create_queue b config r.creating;
  get_queue = get_queue;
  delete_queue = delete_queue;
  list_queues = list_queues;
  update_queue = update_queue;
  send_message = λ b queue_id message. send_message content_digest b queue_id message (r.sending 0);
  send_messages =
      λ b queue_id messages. send_messages content_digest b queue_id (timed r.sending 0 messages);
  receive_messages = λ b queue_id options. receive_messages codec b queue_id options r.receiving;
  delete_message = delete_message codec;
  change_visibility =
      λ b queue_id handle timeout. change_visibility codec b queue_id handle timeout r.changing;
  purge_queue = purge_queue;
  get_stats = get_stats;
  create_subscription = create_subscription;
  get_subscription = get_subscription;
  delete_subscription = delete_subscription;
  list_subscriptions = list_subscriptions;
  health_check = health_check;
  process_expired_visibility = λ b queue_id. process_expired_visibility b queue_id r.expiring;
}

-- A state with the number of calls so far, of which each has readings of its own.
abbrev tick {ℓ} : {A : Type ℓ} → ℕ → A × InMemoryBackend → A × (ℕ × InMemoryBackend)
tick n (result, b) = (result, (suc n, b))

unfoldable pub clocked_backend :
    ReceiptCodec
    → (content_digest : String → String) → (ℕ → BackendReadings)
    → StorageBackend (ℕ × InMemoryBackend)
clocked_backend codec content_digest readings =
    let at : ℕ → StorageBackend InMemoryBackend =
      λ n. memory_backend codec content_digest (readings n) in
    record {
      create_queue = λ s config. tick s.0 ((at s.0).create_queue s.1 config);
      get_queue = λ s id. (at s.0).get_queue s.1 id;
      delete_queue = λ s id. tick s.0 ((at s.0).delete_queue s.1 id);
      list_queues = λ s filter. (at s.0).list_queues s.1 filter;
      update_queue = λ s config. tick s.0 ((at s.0).update_queue s.1 config);
      send_message = λ s id message. tick s.0 ((at s.0).send_message s.1 id message);
      send_messages = λ s id messages. tick s.0 ((at s.0).send_messages s.1 id messages);
      receive_messages = λ s id options. tick s.0 ((at s.0).receive_messages s.1 id options);
      delete_message = λ s id handle. tick s.0 ((at s.0).delete_message s.1 id handle);
      change_visibility =
          λ s id handle timeout. tick s.0 ((at s.0).change_visibility s.1 id handle timeout);
      purge_queue = λ s id. tick s.0 ((at s.0).purge_queue s.1 id);
      get_stats = λ s id. (at s.0).get_stats s.1 id;
      create_subscription = λ s config. tick s.0 ((at s.0).create_subscription s.1 config);
      get_subscription = λ s id. (at s.0).get_subscription s.1 id;
      delete_subscription = λ s id. tick s.0 ((at s.0).delete_subscription s.1 id);
      list_subscriptions = λ s. (at s.0).list_subscriptions s.1;
      health_check = λ s. (at s.0).health_check s.1;
      process_expired_visibility = λ s id. tick s.0 ((at s.0).process_expired_visibility s.1 id);
    }
