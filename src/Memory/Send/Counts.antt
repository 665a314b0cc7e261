-- ===== src/Memory/Send/Counts.antt =====
-- How many messages a queue and the backend hold after `send_message` and `send_messages` of
-- storage/memory.rs.
use lclq.Common.{
  suc, ◌+◌, String, ◌≡◌, ◌≢◌, refl, sym, ap, ◌∙◌, ◌⊎◌, inl, inr, List, [], ◌∷◌, Option, none, some,
  map, length, length-append, arith, Bool-cases,
}
use lclq.Common.HashMap
use lclq.Error.{Result, ok, err}
use lclq.Types.{DateTime, Message, QueueType, sqs_standard, sqs_fifo, pub_sub_topic}
use lclq.Memory.State.{QueueData, InMemoryBackend, held, total_message_count, on_queue}
use lclq.Memory.Totals.{sum_held-insert}
use lclq.Memory.Eviction.{maybe_evict}
use lclq.Memory.Send.{
  SendTimes, is_duplicate, cleanup_deduplication_cache_inline, send_fifo, dispatch, after_eviction,
  prepend, numbered, remember, dedup_id_of, send_message_locked, store, send_all, send_messages,
}

held-store : (q : QueueData) (m : Message) (now : DateTime) → held (store q m now) ≡ suc (held q)
unfolding store
held-store q m now = omega (arith, length-append q.available_messages _)

held-cleanup :
    (q : QueueData) (now : DateTime) → held (cleanup_deduplication_cache_inline now q) ≡ held q
unfolding cleanup_deduplication_cache_inline
held-cleanup q now = ground arith

-- At most one message more.
abbrev pub AddsOneAtMost : QueueData → QueueData → Type 0
AddsOneAtMost q q' = (held q' ≡ held q) ⊎ (held q' ≡ suc (held q))

send_fifo-AddsOneAtMost :
    (q : QueueData) (m : Message) (t : SendTimes) (id : Option String)
    → AddsOneAtMost q (send_fifo q m t id).1
unfolding send_fifo
send_fifo-AddsOneAtMost q m t none = inl refl
send_fifo-AddsOneAtMost q m t (some id) =
    let kept = cleanup_deduplication_cache_inline t.cleaned (remember q id t.remembered) in
    let more : held (store kept (numbered q m) t.queued) ≡ suc (held q) = omega (
      arith,
      held-store kept (numbered q m) t.queued,
      held-cleanup (remember q id t.remembered) t.cleaned,
    ) in
    elim (Bool-cases (is_duplicate q id t.checked)) [
      | inl e ↦ inl (rw (e, send_fifo) refl)
      | inr e ↦ inr (rw (e, send_fifo) more)
    ]

dispatch-AddsOneAtMost :
    (content_digest : String → String) (ty : QueueType) (q : QueueData) (m : Message)
    (t : SendTimes)
    → AddsOneAtMost q (dispatch content_digest ty q m t).1
unfolding dispatch
dispatch-AddsOneAtMost d sqs_fifo q m t = send_fifo-AddsOneAtMost q m t (dedup_id_of d q.config m)
dispatch-AddsOneAtMost d sqs_standard q m t = inr (held-store q m t.queued)
dispatch-AddsOneAtMost d pub_sub_topic q m t = inr (held-store q m t.queued)

config-store : (q : QueueData) (m : Message) (now : DateTime) → (store q m now).config ≡ q.config
unfolding store
config-store q m now = refl

prepend-ok :
    (m : Message) (r : Result (List Message) × QueueData) (ms : List Message)
    → r.0 ≡ ok ms
    → (prepend m r).0 ≡ ok (m ∷ ms)
prepend-ok m (ok more, q) ms h = ground arith
prepend-ok m (err e, q) ms h = ground arith

prepend-state :
    (m : Message) (r : Result (List Message) × QueueData) → held (prepend m r).1 ≡ held r.1
prepend-state m (ok more, q) = refl
prepend-state m (err e, q) = refl

module _ (content_digest : String → String) where
  pub held-send_message_locked :
      (q : QueueData) (m : Message) (t : SendTimes)
      → AddsOneAtMost q (send_message_locked content_digest q m t).1
  unfolding send_message_locked
  held-send_message_locked q m t =
      dispatch-AddsOneAtMost content_digest (q.config).queue_type
        (record q { last_access = t.accessed }) m t

  -- A queue that is no FIFO queue stores every message.
  standard-send_message_locked :
      (q : QueueData) (m : Message) (t : SendTimes)
      → (q.config).queue_type ≢ sqs_fifo
      → send_message_locked content_digest q m t
        ≡ (ok m, store (record q { last_access = t.accessed }) m t.queued)
  unfolding send_message_locked
  standard-send_message_locked q m t plain = ground arith

  -- A batch to such a queue stores all its messages.
  standard-send_all :
      (q : QueueData) (batch : List (Message × SendTimes))
      → (q.config).queue_type ≢ sqs_fifo
      → (held (send_all content_digest q batch).1 ≡ held q + length batch)
        × ((send_all content_digest q batch).0 ≡ ok (map (λ e. e.0) batch))
  unfolding send_all
  standard-send_all q [] plain = (omega arith, refl)
  standard-send_all q ((m, t) ∷ rest) plain =
      let touched = record q { last_access = t.accessed } in
      let q' = store touched m t.queued in
      let ih =
        standard-send_all q' rest
          (λ e. plain (ap (λ c. c.queue_type) (sym (config-store touched m t.queued)) ∙ e)) in
      rw (standard-send_message_locked q m t plain) (
        omega (
          arith,
          ih.0,
          held-store touched m t.queued,
          prepend-state m (send_all content_digest q' rest),
        ),
        prepend-ok m (send_all content_digest q' rest) (map (λ e. e.0) rest) ih.1,
      )

module _ (content_digest : String → String) (b : InMemoryBackend) (queue_id : String)
    (batch : List (Message × SendTimes)) (q : QueueData) where
  -- After an eviction check that lets it through, a batch to an existing queue that is no FIFO
  -- queue adds all its messages, however full the backend is.
  pub total-send_messages :
      (maybe_evict b).0 ≡ ok tt
      → HashMap.get queue_id ((maybe_evict b).1).queues ≡ some q
      → (q.config).queue_type ≢ sqs_fifo
      → total_message_count (send_messages content_digest b queue_id batch).1
        ≡ total_message_count (maybe_evict b).1 + length batch
  unfolding send_messages
  total-send_messages room found plain =
      rw (room, found, after_eviction, on_queue)
        (omega (
          arith,
          sum_held-insert queue_id q (send_all content_digest q batch).1 ((maybe_evict b).1).queues
              found,
          (standard-send_all content_digest q batch plain).0,
        ))
