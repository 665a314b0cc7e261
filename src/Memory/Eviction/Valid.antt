-- ===== src/Memory/Eviction/Valid.antt =====
-- About `maybe_evict` of storage/memory.rs and the well-formedness of the backend.
use lclq.Common.{String, inl, inr, Option, none, some, tail, ltb, Bool-cases, Option-cases}
use lclq.Common.HashMap
use lclq.Common.HashMap.{HashMap}
use lclq.Types.{DateTime}
use lclq.Memory.State.{
  EvictionPolicy, lru, fifo, reject_new, QueueData, InMemoryBackend, total_message_count,
}
use lclq.Memory.Invariant.{
  QueuesAreValid, IsValid, QueuesAreValid-get, QueuesAreValid-insert, with_queues-IsValid,
}
use lclq.Memory.Eviction.{pop_front, evict_from, evict_lru, evict_fifo, apply_policy, maybe_evict}

evict_from-IsValid :
    (queues : HashMap QueueData) (choice : Option (String × DateTime))
    → QueuesAreValid queues
    → QueuesAreValid (evict_from queues choice)
unfolding evict_from pop_front
evict_from-IsValid queues none v = v
evict_from-IsValid queues (some (id, at)) v = elim (Option-cases (HashMap.get id queues)) [
  | inl e ↦ rw (e, pop_front) v
  | inr (q, e) ↦
      let old = QueuesAreValid-get queues id q v e in
      rw (e, pop_front)
        (QueuesAreValid-insert queues id
          (record q { available_messages = tail q.available_messages }) v
          (record {
            own_id = old.own_id;
            handles_unique = old.handles_unique;
            dedup_ids_unique = old.dedup_ids_unique;
          }))
]

pub apply_policy-IsValid :
    (b : InMemoryBackend) (policy : EvictionPolicy) → IsValid b → IsValid (apply_policy b policy).1
unfolding apply_policy evict_lru evict_fifo
apply_policy-IsValid b reject_new v = v
apply_policy-IsValid b lru v =
    with_queues-IsValid b (evict_lru b.queues) v (evict_from-IsValid b.queues _ v.queues_valid)
apply_policy-IsValid b fifo v =
    with_queues-IsValid b (evict_fifo b.queues) v (evict_from-IsValid b.queues _ v.queues_valid)

pub maybe_evict-IsValid : (b : InMemoryBackend) → IsValid b → IsValid (maybe_evict b).1
unfolding maybe_evict
maybe_evict-IsValid b v = elim (Bool-cases (ltb (total_message_count b) (b.config).max_messages)) [
  | inl e ↦ rw e v
  | inr e ↦ rw e (apply_policy-IsValid b (b.config).eviction_policy v)
]
