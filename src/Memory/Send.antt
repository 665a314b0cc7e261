-- ===== src/Memory/Send.antt =====
-- storage/memory.rs: `send_message`, `send_messages` and their common `send_message_locked`.
pub mod Dedup
pub mod Counts
pub mod Bound
pub mod Interleaved
pub mod Valid
use lclq.Common.{
  ℕ, ◌+◌, ◌<◌, String, Bool, true, false, List, [], ◌∷◌, ◌++◌, Option, none, some, length, ltb,
  unwrap_or, if◌then◌else◌,
}
use lclq.Common.HashMap
use lclq.Common.HashMap.{HashMap}
use lclq.Common.Word.{next_u64}
use lclq.Error.{Error, validation, invalid_parameter, queue_not_found, Result, ok, err}
use lclq.Types.{
  DateTime, Message, QueueType, sqs_standard, sqs_fifo, pub_sub_topic, QueueConfig, seconds,
  minutes,
}
use lclq.Memory.State.{StoredMessage, QueueData, InMemoryBackend, on_queue}
use lclq.Memory.Eviction.{maybe_evict}

-- What one call of `send_message_locked` reads from the clock, in the order of the calls.
pub record SendTimes : Type 0 where
  pub accessed : DateTime
  pub checked : DateTime
  pub remembered : DateTime
  pub cleaned : DateTime
  pub queued : DateTime

-- `DEDUP_WINDOW`, and whether a time lies after `now - DEDUP_WINDOW`.
abbrev pub dedup_window : DateTime
dedup_window = minutes 5

abbrev pub is_within_window : (now timestamp : DateTime) → Bool
is_within_window now timestamp = ltb now (timestamp + dedup_window)

-- `CLEANUP_THRESHOLD`.
abbrev pub cleanup_threshold : ℕ
cleanup_threshold = 1000

unfoldable pub cleanup_deduplication_cache_inline : DateTime → QueueData → QueueData
cleanup_deduplication_cache_inline now queue =
    if ltb cleanup_threshold (length queue.deduplication_cache)
    then record queue {
      deduplication_cache = HashMap.retain (is_within_window now) queue.deduplication_cache;
    }
    else queue

missing_dedup_id : Error
missing_dedup_id = validation (
    invalid_parameter "MessageDeduplicationId"
      "FIFO queues require either MessageDeduplicationId or ContentBasedDeduplication")

-- Whether the cache holds the ID with a time inside the window.
unfoldable pub is_duplicate : QueueData → String → DateTime → Bool
is_duplicate queue dedup_id now = elim (HashMap.get dedup_id queue.deduplication_cache) [
  | none ↦ false
  | some timestamp ↦ is_within_window now timestamp
]

-- The end of `send_message_locked`, which all queues share.
unfoldable pub store : QueueData → Message → DateTime → QueueData
store queue message now =
    let delay = unwrap_or message.delay_seconds queue.config.delay_seconds in
    record queue {
      available_messages =
          queue.available_messages
          ++ (record { message = message; visible_at = now + seconds delay }) ∷ [];
    }

-- A new message of a FIFO queue: its ID is remembered and it gets a sequence number.
abbrev pub numbered : QueueData → Message → Message
numbered queue message = record message { sequence_number = some queue.next_sequence_number }

abbrev pub remember : QueueData → String → DateTime → QueueData
remember queue dedup_id now = record queue {
  deduplication_cache = HashMap.insert dedup_id now queue.deduplication_cache;
  next_sequence_number = next_u64 queue.next_sequence_number;
}

send_fifo : QueueData → Message → SendTimes → Option String → Result Message × QueueData
unfolding missing_dedup_id is_duplicate store cleanup_deduplication_cache_inline
send_fifo queue message t none = (err missing_dedup_id, queue)
send_fifo queue message t (some dedup_id) =
    if is_duplicate queue dedup_id t.checked
    then (ok message, queue)
    else let queue' =
        cleanup_deduplication_cache_inline t.cleaned (remember queue dedup_id t.remembered) in
      (ok (numbered queue message), store queue' (numbered queue message) t.queued)

-- A refused eviction ends the call.
abbrev after_eviction {ℓ} :
    {A : Type ℓ}
    → Result (Unit {0}) × InMemoryBackend
    → (InMemoryBackend → Result A × InMemoryBackend)
    → Result A × InMemoryBackend
after_eviction (ok _, b) f = f b
after_eviction (err e, b) f = (err e, b)

-- One round of the loop of `send_messages`: an error ends it, and otherwise the message is put in
-- front of those that the later rounds send.
abbrev prepend : Message → Result (List Message) × QueueData → Result (List Message) × QueueData
prepend sent (ok more, queue) = (ok (sent ∷ more), queue)
prepend sent (err e, queue) = (err e, queue)

abbrev then_rest :
    Result Message × QueueData
    → (QueueData → Result (List Message) × QueueData)
    → Result (List Message) × QueueData
then_rest (ok sent, queue) k = prepend sent (k queue)
then_rest (err e, queue) k = (err e, queue)

-- `content_digest` stands for `generate_content_dedup_id`'s SHA-256 of the body, in hexadecimal.
module _ (content_digest : String → String) where
  unfoldable pub dedup_id_of : QueueConfig → Message → Option String
  dedup_id_of config message = elim message.deduplication_id [
    | some id ↦ some id
    | none ↦ if config.content_based_deduplication then some (content_digest message.body) else none
  ]

  dispatch : QueueType → QueueData → Message → SendTimes → Result Message × QueueData
  unfolding send_fifo dedup_id_of
  dispatch sqs_fifo queue message t = send_fifo queue message t (dedup_id_of queue.config message)
  dispatch sqs_standard queue message t = (ok message, store queue message t.queued)
  dispatch pub_sub_topic queue message t = (ok message, store queue message t.queued)

  unfoldable pub send_message_locked : QueueData → Message → SendTimes → Result Message × QueueData
  unfolding dispatch
  send_message_locked queue message t =
      dispatch queue.config.queue_type (record queue { last_access = t.accessed }) message t

  -- The loop of `send_messages`: it stops at the first error.
  pub send_all : QueueData → List (Message × SendTimes) → Result (List Message) × QueueData
  send_all queue [] = (ok [], queue)
  send_all queue ((message, t) ∷ rest) =
      then_rest (send_message_locked queue message t) (λ queue'. send_all queue' rest)

  -- The part of `send_message` behind its own write lock.
  abbrev pub store_message :
      InMemoryBackend → String → Message → SendTimes → Result Message × InMemoryBackend
  store_message b queue_id message t =
      on_queue b queue_id (λ queue. send_message_locked queue message t)

  -- A call that runs alone. The source takes the lock anew for the count, for the eviction and for
  -- `store_message`: Interleaved has these parts as steps, between which other calls come, and so
  -- has Memory/Reachable with the eviction check as one step.
  unfoldable pub send_message :
      InMemoryBackend → String → Message → SendTimes → Result Message × InMemoryBackend
  send_message b queue_id message t =
      after_eviction (maybe_evict b) (λ b'. store_message b' queue_id message t)

  -- Each message comes with the times that its call reads.
  unfoldable pub send_messages :
      InMemoryBackend
      → String
      → List (Message × SendTimes)
      → Result (List Message) × InMemoryBackend
  unfolding send_all
  send_messages b queue_id messages =
      after_eviction (maybe_evict b) (λ b'. on_queue b' queue_id (λ queue. send_all queue messages))
