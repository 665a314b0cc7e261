-- ===== src/Memory/Eviction.antt =====
-- storage/memory.rs: `maybe_evict` and the two eviction policies that remove a message.
pub mod Room
pub mod Valid
use lclq.Common.{
  ℕ, String, ◌≡◌, Bool, not, List, [], ◌∷◌, Option, none, some, ltb, head?, tail, if◌then◌else◌,
}
use lclq.Common.HashMap
use lclq.Common.HashMap.{HashMap}
use lclq.Error.{Error, storage_error, Result, ok, err}
use lclq.Types.{DateTime}
use lclq.Memory.State.{
  EvictionPolicy, lru, fifo, reject_new, StoredMessage, QueueData, InMemoryBackend,
  total_message_count,
}

-- `Iterator::min_by_key`: the first of the least entries.
min_from {ℓ} : {A : Type ℓ} → (A → ℕ) → A → List A → A
min_from key best [] = best
min_from key best (x ∷ xs) = min_from key (if ltb (key x) (key best) then x else best) xs

min_by_key {ℓ} : {A : Type ℓ} → (A → ℕ) → List A → Option A
unfolding min_from
min_by_key key [] = none
min_by_key key (x ∷ xs) = some (min_from key x xs)

-- A queue with no available message is passed over; of another the front message is shown.
candidate :
    (available : List StoredMessage)
    → (StoredMessage → String × DateTime)
    → List (String × DateTime)
    → List (String × DateTime)
candidate [] key es = es
candidate (front ∷ _) key es = key front ∷ es

-- The queues with an available message, each with its time of last access.
last_accesses : HashMap QueueData → List (String × DateTime)
unfolding candidate
last_accesses [] = []
last_accesses ((id, q) ∷ m) =
    candidate q.available_messages (λ _. (id, q.last_access)) (last_accesses m)

-- The queues with an available message, each with the time at which its front message was sent.
front_timestamps : HashMap QueueData → List (String × DateTime)
unfolding candidate
front_timestamps [] = []
front_timestamps ((id, q) ∷ m) =
    candidate q.available_messages (λ front. (id, (front.message).sent_timestamp))
      (front_timestamps m)

-- `available_messages.pop_front()` on the queue that was chosen.
pop_front : HashMap QueueData → String → HashMap QueueData
pop_front queues queue_id = elim (HashMap.get queue_id queues) [
  | none ↦ queues
  | some q ↦
      HashMap.insert queue_id (record q { available_messages = tail q.available_messages }) queues
]

evict_from : HashMap QueueData → Option (String × DateTime) → HashMap QueueData
unfolding pop_front
evict_from queues none = queues
evict_from queues (some (queue_id, _)) = pop_front queues queue_id

pub evict_lru : HashMap QueueData → HashMap QueueData
unfolding evict_from min_by_key last_accesses
evict_lru queues = evict_from queues (min_by_key (λ e. e.1) (last_accesses queues))

pub evict_fifo : HashMap QueueData → HashMap QueueData
unfolding evict_from min_by_key front_timestamps
evict_fifo queues = evict_from queues (min_by_key (λ e. e.1) (front_timestamps queues))

unfoldable pub apply_policy : InMemoryBackend → EvictionPolicy → Result (Unit {0}) × InMemoryBackend
apply_policy b reject_new =
    (err (storage_error "Message storage is full, rejecting new messages"), b)
apply_policy b lru = (ok tt, record b { queues = evict_lru b.queues })
apply_policy b fifo = (ok tt, record b { queues = evict_fifo b.queues })

unfoldable pub maybe_evict : InMemoryBackend → Result (Unit {0}) × InMemoryBackend
unfolding apply_policy
maybe_evict b =
    if ltb (total_message_count b) b.config.max_messages
    then (ok tt, b)
    else apply_policy b b.config.eviction_policy
