-- ===== src/Memory/Queues.antt =====
-- storage/memory.rs: the operations that create, read, change and delete queues, and `get_stats`.
pub mod Valid
use text.Mathlib.Text.{starts_with}
use lclq.Common.{
  ℕ, String, List, [], ◌∷◌, Option, none, some, map, length, head?, keep_if, if◌then◌else◌,
}
use lclq.Common.HashMap
use lclq.Common.HashMap.{values}
use lclq.Error.{queue_already_exists, queue_not_found, Result, ok, err, ok_or, ◌>>=◌}
use lclq.Types.{DateTime, QueueConfig, QueueStats}
use lclq.Storage.{QueueFilter}
use lclq.Memory.State.{QueueData, InMemoryBackend, put_queue, on_queue}

-- The data of a queue that has just been created.
abbrev pub empty_queue : QueueConfig → DateTime → QueueData
empty_queue config now = record {
  config = config;
  available_messages = [];
  in_flight_messages = [];
  deduplication_cache = [];
  next_sequence_number = 0;
  last_access = now;
}

unfoldable pub create_queue :
    InMemoryBackend → QueueConfig → DateTime → Result QueueConfig × InMemoryBackend
create_queue b config now =
    if HashMap.contains_key config.id b.queues
    then (err (queue_already_exists config.id), b)
    else (ok config, put_queue b config.id (empty_queue config now))

unfoldable pub get_queue : InMemoryBackend → String → Result QueueConfig
get_queue b queue_id = do
  queue ← ok_or (HashMap.get queue_id b.queues) (queue_not_found queue_id)
  ok queue.config

unfoldable pub update_queue : InMemoryBackend → QueueConfig → Result QueueConfig × InMemoryBackend
update_queue b config = on_queue b config.id λ queue. (ok config, record queue { config = config })

unfoldable pub delete_queue : InMemoryBackend → String → Result (Unit {0}) × InMemoryBackend
delete_queue b queue_id = elim (HashMap.get queue_id b.queues) [
  | none ↦ (err (queue_not_found queue_id), b)
  | some _ ↦ (ok tt, record b { queues = HashMap.remove queue_id b.queues })
]

unfoldable pub filter_configs : Option QueueFilter → List QueueConfig → List QueueConfig
filter_configs none configs = configs
filter_configs (some f) configs = elim f.name_prefix [
  | none ↦ configs
  | some prefix ↦ keep_if (λ c. starts_with c.name prefix) configs
]

unfoldable pub list_queues : InMemoryBackend → Option QueueFilter → Result (List QueueConfig)
unfolding filter_configs
list_queues b filter = ok (filter_configs filter (map (λ q. q.config) (values b.queues)))

unfoldable pub purge_queue : InMemoryBackend → String → Result (Unit {0}) × InMemoryBackend
purge_queue b queue_id =
    on_queue b queue_id
      λ queue. (ok tt, record queue { available_messages = []; in_flight_messages = [] })

unfoldable pub get_stats : InMemoryBackend → String → Result QueueStats
get_stats b queue_id = do
  queue ← ok_or (HashMap.get queue_id b.queues) (queue_not_found queue_id)
  ok (record {
    available_messages = length queue.available_messages;
    in_flight_messages = length queue.in_flight_messages;
    dlq_messages = 0;
    oldest_message_timestamp = elim (head? queue.available_messages) [
      | none ↦ none
      | some m ↦ some (m.message).sent_timestamp
    ];
  })
