-- ===== src/Memory/Invariant.antt =====
-- The well-formedness of the in-memory backend of storage/memory.rs: unique keys, and queues and
-- subscriptions under their own IDs.
use lclq.Common.{String, ◌≡◌, inl, inr, some, Option-cases}
use lclq.Common.HashMap
use lclq.Common.HashMap.{HashMap, HasUniqueKeys, insert-HasUniqueKeys}
use lclq.Common.Entries.{AllEntries, AllEntries-get, AllEntries-insert}
use lclq.Error.{Result}
use lclq.Memory.State.{QueueData, InMemoryBackend, InMemoryConfig, with_config, put_queue, on_queue}

pub record QueueIsValid (id : String) (q : QueueData) : Type 0 where
  pub own_id : (q.config).id ≡ id
  pub handles_unique : HasUniqueKeys q.in_flight_messages
  pub dedup_ids_unique : HasUniqueKeys q.deduplication_cache

abbrev pub QueuesAreValid : HashMap QueueData → Type 0
QueuesAreValid queues = HasUniqueKeys queues × AllEntries QueueIsValid queues

pub record IsValid (b : InMemoryBackend) : Type 0 where
  pub queues_valid : QueuesAreValid b.queues
  pub subscriptions_unique : HasUniqueKeys b.subscriptions
  pub subscription_ids : AllEntries (λ id s. s.id ≡ id) b.subscriptions

pub with_config-IsValid : (c : InMemoryConfig) → IsValid (with_config c)
with_config-IsValid c = record {
  queues_valid = (tt, tt);
  subscriptions_unique = tt;
  subscription_ids = tt;
}

pub QueuesAreValid-get :
    (queues : HashMap QueueData) (id : String) (q : QueueData)
    → QueuesAreValid queues
    → HashMap.get id queues ≡ some q
    → QueueIsValid id q
QueuesAreValid-get queues id q v found = AllEntries-get QueueIsValid id queues q v.1 found

pub QueuesAreValid-insert :
    (queues : HashMap QueueData) (id : String) (q : QueueData)
    → QueuesAreValid queues
    → QueueIsValid id q
    → QueuesAreValid (HashMap.insert id q queues)
QueuesAreValid-insert queues id q v valid =
    (insert-HasUniqueKeys id q queues v.0, AllEntries-insert QueueIsValid id q queues valid v.1)

pub put_queue-IsValid :
    (b : InMemoryBackend) (id : String) (q : QueueData)
    → IsValid b
    → QueueIsValid id q
    → IsValid (put_queue b id q)
put_queue-IsValid b id q v valid = record {
  queues_valid = QueuesAreValid-insert b.queues id q v.queues_valid valid;
  subscriptions_unique = v.subscriptions_unique;
  subscription_ids = v.subscription_ids;
}

-- An operation on one queue keeps the backend valid if it keeps the queue valid.
pub on_queue-IsValid {ℓ} :
    {A : Type ℓ} (b : InMemoryBackend) (id : String) (f : QueueData → Result A × QueueData)
    → IsValid b
    → ((q : QueueData) → QueueIsValid id q → QueueIsValid id (f q).1)
    → IsValid (on_queue b id f).1
on_queue-IsValid b id f v keep = elim (Option-cases (HashMap.get id b.queues)) [
  | inl e ↦ rw (e, on_queue) v
  | inr (q, e) ↦
      rw (e, on_queue)
        (put_queue-IsValid b id (f q).1 v
          (keep q (QueuesAreValid-get b.queues id q v.queues_valid e)))
]

pub with_queues-IsValid :
    (b : InMemoryBackend) (queues : HashMap QueueData)
    → IsValid b
    → QueuesAreValid queues
    → IsValid (record b { queues = queues })
with_queues-IsValid b queues v valid = record {
  queues_valid = valid;
  subscriptions_unique = v.subscriptions_unique;
  subscription_ids = v.subscription_ids;
}
