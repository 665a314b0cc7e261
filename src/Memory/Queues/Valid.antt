-- ===== src/Memory/Queues/Valid.antt =====
-- About the operations on whole queues of storage/memory.rs and the well-formedness of the backend.
use lclq.Common.{String, refl, inl, inr, Bool-cases, Option-cases}
use lclq.Common.HashMap
use lclq.Common.HashMap.{HashMap, remove-HasUniqueKeys}
use lclq.Common.Entries.{AllEntries-remove}
use lclq.Types.{DateTime, QueueConfig}
use lclq.Memory.State.{InMemoryBackend}
use lclq.Memory.Invariant.{
  QueueIsValid, IsValid, put_queue-IsValid, with_queues-IsValid, on_queue-IsValid,
}
use lclq.Memory.Queues.{empty_queue, create_queue, update_queue, delete_queue, purge_queue}

pub create_queue-IsValid :
    (b : InMemoryBackend) (config : QueueConfig) (now : DateTime)
    → IsValid b
    → IsValid (create_queue b config now).1
unfolding create_queue
create_queue-IsValid b config now v = elim (Bool-cases (HashMap.contains_key config.id b.queues)) [
  | inl e ↦ rw e v
  | inr e ↦ rw e (
      put_queue-IsValid b config.id (empty_queue config now) v
        (record { own_id = refl; handles_unique = tt; dedup_ids_unique = tt }))
]

pub update_queue-IsValid :
    (b : InMemoryBackend) (config : QueueConfig) → IsValid b → IsValid (update_queue b config).1
unfolding update_queue
update_queue-IsValid b config v = on_queue-IsValid b config.id _ v λ q old. record {
  own_id = refl;
  handles_unique = old.handles_unique;
  dedup_ids_unique = old.dedup_ids_unique;
}

pub delete_queue-IsValid :
    (b : InMemoryBackend) (id : String) → IsValid b → IsValid (delete_queue b id).1
unfolding delete_queue
delete_queue-IsValid b id v = elim (Option-cases (HashMap.get id b.queues)) [
  | inl e ↦ rw (e, delete_queue) v
  | inr (q, e) ↦
      rw (e, delete_queue)
        (with_queues-IsValid b (HashMap.remove id b.queues) v (
          remove-HasUniqueKeys id b.queues v.queues_valid.0,
          AllEntries-remove QueueIsValid id b.queues v.queues_valid.1,
        ))
]

pub purge_queue-IsValid :
    (b : InMemoryBackend) (id : String) → IsValid b → IsValid (purge_queue b id).1
unfolding purge_queue
purge_queue-IsValid b id v = on_queue-IsValid b id _ v λ q old. record {
  own_id = old.own_id;
  handles_unique = tt;
  dedup_ids_unique = old.dedup_ids_unique;
}
