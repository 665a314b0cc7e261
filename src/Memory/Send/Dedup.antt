-- ===== src/Memory/Send/Dedup.antt =====
-- About the deduplication of FIFO queues in `send_message_locked` of storage/memory.rs.
use lclq.Common.{suc, ◌+◌, ◌<◌, String, ◌≡◌, ap, ◌∙◌, false, some, length, length-append, arith}
use lclq.Common.HashMap
use lclq.Common.HashMap.{
  HashMap, HasUniqueKeys, get-insert_self, insert-HasUniqueKeys, retain-HasUniqueKeys, get-retain,
}
use lclq.Error.{ok}
use lclq.Types.{DateTime, Message, sqs_fifo}
use lclq.Memory.State.{QueueData}
use lclq.Memory.Send.{
  SendTimes, dedup_window, is_within_window, is_duplicate, cleanup_deduplication_cache_inline,
  dedup_id_of, send_message_locked, store, numbered, remember,
}

module _ (content_digest : String → String) (q : QueueData) where
  -- The queue has seen the ID at a time from which the window reaches past the new call.
  pub record HasSeen (id : String) (now : DateTime) : Type 0 where
    pub at : DateTime
    pub cached : HashMap.get id q.deduplication_cache ≡ some at
    pub recent : now < at + dedup_window

  -- The branch of a repeated ID.
  send_message_locked-duplicate :
      (m : Message) (t : SendTimes) (id : String)
      → (q.config).queue_type ≡ sqs_fifo
      → dedup_id_of content_digest q.config m ≡ some id
      → HasSeen id t.checked
      → send_message_locked content_digest q m t ≡ (ok m, record q { last_access = t.accessed })
  unfolding send_message_locked is_duplicate
  send_message_locked-duplicate m t id fifo known seen = ground arith

-- What the send of a message with a new ID leaves in the cache.
cleanup_keeps :
    (q : QueueData) (id : String) (at now : DateTime)
    → HasUniqueKeys q.deduplication_cache
    → HashMap.get id q.deduplication_cache ≡ some at
    → now < at + dedup_window
    → HashMap.get id (cleanup_deduplication_cache_inline now q).deduplication_cache ≡ some at
unfolding cleanup_deduplication_cache_inline
cleanup_keeps q id at now u cached recent =
    ground (arith, get-retain (is_within_window now) id at q.deduplication_cache u cached)

available-cleanup :
    (q : QueueData) (now : DateTime)
    → (cleanup_deduplication_cache_inline now q).available_messages ≡ q.available_messages
unfolding cleanup_deduplication_cache_inline
available-cleanup q now = ground arith

pub length-store :
    (q : QueueData) (m : Message) (now : DateTime)
    → length (store q m now).available_messages ≡ suc (length q.available_messages)
unfolding store
length-store q m now = omega (arith, length-append q.available_messages _)

module _ (content_digest : String → String) (q : QueueData) (m : Message) (t : SendTimes)
    (id : String) where
  abbrev touched : QueueData
  touched = record q { last_access = t.accessed }

  -- The queue before the message is stored: the ID is remembered, the number is taken.
  abbrev remembering : QueueData
  remembering = cleanup_deduplication_cache_inline t.cleaned (remember touched id t.remembered)

  -- A message of a FIFO queue whose ID is new gets the next sequence number and is stored.
  pub send_message_locked-new :
      (q.config).queue_type ≡ sqs_fifo
      → dedup_id_of content_digest q.config m ≡ some id
      → is_duplicate q id t.checked ≡ false
      → send_message_locked content_digest q m t
        ≡ (ok (numbered q m), store remembering (numbered q m) t.queued)
  unfolding send_message_locked is_duplicate
  send_message_locked-new fifo known new = ground arith

  abbrev after : QueueData
  after = store remembering (numbered q m) t.queued

  after-config : after.config ≡ q.config
  unfolding store cleanup_deduplication_cache_inline
  after-config = ground arith

  after-cached :
      HasUniqueKeys q.deduplication_cache
      → t.cleaned < t.remembered + dedup_window
      → HashMap.get id after.deduplication_cache ≡ some t.remembered
  unfolding store
  after-cached u quick =
      cleanup_keeps (remember touched id t.remembered) id t.remembered t.cleaned
        (insert-HasUniqueKeys id t.remembered q.deduplication_cache u)
        (get-insert_self id t.remembered q.deduplication_cache) quick

  after-length : length after.available_messages ≡ suc (length q.available_messages)
  after-length =
      length-store remembering (numbered q m) t.queued
      ∙ ap (λ ms. suc (length ms)) (available-cleanup (remember touched id t.remembered) t.cleaned)

  -- In a FIFO queue whose cache has unique keys a message with a new deduplication ID adds one
  -- message, and a send with the same ID inside the window after it is answered as sent and
  -- changes only the time of last access, if the first call took less than the window from
  -- remembering the ID to the clean-up.
  pub send_message_locked-at_most_once :
      (m' : Message) (t' : SendTimes)
      → (q.config).queue_type ≡ sqs_fifo
      → dedup_id_of content_digest q.config m ≡ some id
      → dedup_id_of content_digest q.config m' ≡ some id
      → is_duplicate q id t.checked ≡ false
      → HasUniqueKeys q.deduplication_cache
      → t.cleaned < t.remembered + dedup_window
      → t'.checked < t.remembered + dedup_window
      → let q₁ = (send_message_locked content_digest q m t).1 in
        (length q₁.available_messages ≡ suc (length q.available_messages))
        × (send_message_locked content_digest q₁ m' t'
            ≡ (ok m', record q₁ { last_access = t'.accessed }))
  send_message_locked-at_most_once m' t' fifo known known' new u quick soon =
      rw (send_message_locked-new fifo known new) (
        after-length,
        send_message_locked-duplicate content_digest after m' t' id
            (ap (λ c. c.queue_type) after-config ∙ fifo)
            (ap (λ c. dedup_id_of content_digest c m') after-config ∙ known')
            (record { at = t.remembered; cached = after-cached u quick; recent = soon }),
      )
