-- ===== src/Memory/State.antt =====
-- storage/memory.rs: the state of the in-memory backend, and the access to one of its queues. Each
-- operation is a function of the state and of what it reads from outside: the clock and the random
-- nonces.
use lclq.Common.{ℕ, ◌+◌, String, List, [], ◌∷◌, none, some, length}
use lclq.Common.HashMap
use lclq.Common.HashMap.{HashMap}
use lclq.Error.{queue_not_found, Result, err}
use lclq.Types.{DateTime, Message, QueueConfig, SubscriptionConfig}

-- `EvictionPolicy` of config/mod.rs.
pub data EvictionPolicy : Type 0 where
  lru fifo reject_new : EvictionPolicy

pub record InMemoryConfig : Type 0 where
  pub max_messages : ℕ
  pub eviction_policy : EvictionPolicy

pub record StoredMessage : Type 0 where
  pub message : Message
  pub visible_at : DateTime

pub record InFlightMessage : Type 0 where
  pub message : Message
  pub visibility_expires_at : DateTime

pub record QueueData : Type 0 where
  pub config : QueueConfig
  pub available_messages : List StoredMessage
  pub in_flight_messages : HashMap InFlightMessage
  pub deduplication_cache : HashMap DateTime
  pub next_sequence_number : ℕ
  pub last_access : DateTime

pub record InMemoryBackend : Type 0 where
  pub queues : HashMap QueueData
  pub subscriptions : HashMap SubscriptionConfig
  pub config : InMemoryConfig

-- `InMemoryConfig::default`, `InMemoryBackend::with_config` and `InMemoryBackend::new`.
abbrev pub default_config : InMemoryConfig
default_config = record { max_messages = 100000; eviction_policy = lru }

abbrev pub with_config : InMemoryConfig → InMemoryBackend
with_config config = record { queues = []; subscriptions = []; config = config }

abbrev pub new : InMemoryBackend
new = with_config default_config

-- What a change of the queue behind `queues.get_mut(queue_id)` makes of the backend.
abbrev pub put_queue : InMemoryBackend → String → QueueData → InMemoryBackend
put_queue b queue_id queue = record b { queues = HashMap.insert queue_id queue b.queues }

-- The messages of one queue, and `total_message_count`.
abbrev pub held : QueueData → ℕ
held q = length q.available_messages + length q.in_flight_messages

abbrev pub sum_held : HashMap QueueData → ℕ
sum_held [] = 0
sum_held ((k, q) ∷ m) = held q + sum_held m

abbrev pub total_message_count : InMemoryBackend → ℕ
total_message_count b = sum_held b.queues

-- The part behind the write lock: `f` is what is done with the queue.
abbrev pub on_queue {ℓ} :
    {A : Type ℓ}
    → InMemoryBackend
    → String
    → (QueueData → Result A × QueueData)
    → Result A × InMemoryBackend
on_queue b queue_id f = elim (HashMap.get queue_id b.queues) [
  | none ↦ (err (queue_not_found queue_id), b)
  | some queue ↦ let (r, queue') = f queue in (r, put_queue b queue_id queue')
]
