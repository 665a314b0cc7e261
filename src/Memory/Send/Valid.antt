-- ===== src/Memory/Send/Valid.antt =====
-- About `send_message` and `send_messages` of storage/memory.rs and the well-formedness of the
-- backend.
use lclq.Common.{String, inl, inr, Option, none, some, List, [], ◌∷◌, arith, Bool-cases}
use lclq.Common.HashMap.{insert-HasUniqueKeys, retain-HasUniqueKeys}
use lclq.Error.{Result, ok, err}
use lclq.Types.{Message, QueueType, sqs_standard, sqs_fifo, pub_sub_topic, DateTime}
use lclq.Memory.State.{QueueData, InMemoryBackend}
use lclq.Memory.Invariant.{QueueIsValid, IsValid, on_queue-IsValid}
use lclq.Memory.Eviction.{maybe_evict}
use lclq.Memory.Eviction.Valid.{maybe_evict-IsValid}
use lclq.Memory.Send.{
  SendTimes, is_within_window, cleanup_deduplication_cache_inline, store, remember, numbered,
  is_duplicate, send_fifo, dispatch, dedup_id_of, send_message_locked, send_all, prepend, then_rest,
  after_eviction, send_message, send_messages,
}

cleanup-IsValid :
    (id : String) (q : QueueData) (now : DateTime)
    → QueueIsValid id q
    → QueueIsValid id (cleanup_deduplication_cache_inline now q)
unfolding cleanup_deduplication_cache_inline
cleanup-IsValid id q now v = record {
  own_id = ground arith;
  handles_unique = ground arith;
  dedup_ids_unique =
      ground (
        arith,
        retain-HasUniqueKeys (is_within_window now) q.deduplication_cache v.dedup_ids_unique,
      );
}

store-IsValid :
    (id : String) (q : QueueData) (m : Message) (now : DateTime)
    → QueueIsValid id q
    → QueueIsValid id (store q m now)
unfolding store
store-IsValid id q m now v = record {
  own_id = v.own_id;
  handles_unique = v.handles_unique;
  dedup_ids_unique = v.dedup_ids_unique;
}

remember-IsValid :
    (id : String) (q : QueueData) (dedup_id : String) (now : DateTime)
    → QueueIsValid id q
    → QueueIsValid id (remember q dedup_id now)
remember-IsValid id q dedup_id now v = record {
  own_id = v.own_id;
  handles_unique = v.handles_unique;
  dedup_ids_unique = insert-HasUniqueKeys dedup_id now q.deduplication_cache v.dedup_ids_unique;
}

send_fifo-IsValid :
    (id : String) (q : QueueData) (m : Message) (t : SendTimes) (dedup_id : Option String)
    → QueueIsValid id q
    → QueueIsValid id (send_fifo q m t dedup_id).1
unfolding send_fifo
send_fifo-IsValid id q m t none v = v
send_fifo-IsValid id q m t (some dedup_id) v =
    elim (Bool-cases (is_duplicate q dedup_id t.checked)) [
      | inl e ↦ rw (e, send_fifo) v
      | inr e ↦
          rw (e, send_fifo)
            (store-IsValid id
              (cleanup_deduplication_cache_inline t.cleaned (remember q dedup_id t.remembered))
              (numbered q m) t.queued
              (cleanup-IsValid id (remember q dedup_id t.remembered) t.cleaned
                (remember-IsValid id q dedup_id t.remembered v)))
    ]

module _ (content_digest : String → String) (id : String) where
  dispatch-IsValid :
      (ty : QueueType) (q : QueueData) (m : Message) (t : SendTimes)
      → QueueIsValid id q
      → QueueIsValid id (dispatch content_digest ty q m t).1
  unfolding dispatch
  dispatch-IsValid sqs_fifo q m t v =
      send_fifo-IsValid id q m t (dedup_id_of content_digest q.config m) v
  dispatch-IsValid sqs_standard q m t v = store-IsValid id q m t.queued v
  dispatch-IsValid pub_sub_topic q m t v = store-IsValid id q m t.queued v

  pub send_message_locked-IsValid :
      (q : QueueData) (m : Message) (t : SendTimes)
      → QueueIsValid id q
      → QueueIsValid id (send_message_locked content_digest q m t).1
  unfolding send_message_locked
  send_message_locked-IsValid q m t v =
      dispatch-IsValid (q.config).queue_type (record q { last_access = t.accessed }) m t
        (record {
          own_id = v.own_id;
          handles_unique = v.handles_unique;
          dedup_ids_unique = v.dedup_ids_unique;
        })

  prepend-IsValid :
      (m : Message) (r : Result (List Message) × QueueData)
      → QueueIsValid id r.1
      → QueueIsValid id (prepend m r).1
  prepend-IsValid m (ok _, q) v = v
  prepend-IsValid m (err _, q) v = v

  then_rest-IsValid :
      (r : Result Message × QueueData) (k : QueueData → Result (List Message) × QueueData)
      → QueueIsValid id r.1
      → ((q : QueueData) → QueueIsValid id q → QueueIsValid id (k q).1)
      → QueueIsValid id (then_rest r k).1
  then_rest-IsValid (ok m, q) k v keep = prepend-IsValid m (k q) (keep q v)
  then_rest-IsValid (err e, q) k v keep = v

  pub send_all-IsValid :
      (q : QueueData) (batch : List (Message × SendTimes))
      → QueueIsValid id q
      → QueueIsValid id (send_all content_digest q batch).1
  unfolding send_all
  send_all-IsValid q [] v = v
  send_all-IsValid q ((m, t) ∷ rest) v =
      then_rest-IsValid (send_message_locked content_digest q m t)
        (λ q'. send_all content_digest q' rest) (send_message_locked-IsValid q m t v)
        (λ q' v'. send_all-IsValid q' rest v')

after_eviction-IsValid {ℓ} :
    {A : Type ℓ} (r : Result (Unit {0}) × InMemoryBackend)
    (f : InMemoryBackend → Result A × InMemoryBackend)
    → IsValid r.1
    → ((b : InMemoryBackend) → IsValid b → IsValid (f b).1)
    → IsValid (after_eviction r f).1
after_eviction-IsValid (ok _, b) f v keep = keep b v
after_eviction-IsValid (err e, b) f v keep = v

module _ (content_digest : String → String) (b : InMemoryBackend) (id : String) where
  pub send_message-IsValid :
      (m : Message) (t : SendTimes) → IsValid b → IsValid (send_message content_digest b id m t).1
  unfolding send_message
  send_message-IsValid m t v =
      after_eviction-IsValid (maybe_evict b) _ (maybe_evict-IsValid b v) (λ b' v'.
        on_queue-IsValid b' id _ v' (λ q. send_message_locked-IsValid content_digest id q m t))

  pub send_messages-IsValid :
      (batch : List (Message × SendTimes))
      → IsValid b
      → IsValid (send_messages content_digest b id batch).1
  unfolding send_messages
  send_messages-IsValid batch v =
      after_eviction-IsValid (maybe_evict b) _ (maybe_evict-IsValid b v)
        (λ b' v'. on_queue-IsValid b' id _ v' (λ q. send_all-IsValid content_digest id q batch))
