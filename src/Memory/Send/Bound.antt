-- ===== src/Memory/Send/Bound.antt =====
-- The limit `max_messages` under `send_message` of storage/memory.rs.
use lclq.Common.{suc, ◌+◌, ◌≤◌, String, ◌≡◌, refl, inl, inr, arith, Option-cases}
use lclq.Common.HashMap
use lclq.Common.HashMap.{HashMap, HasUniqueKeys}
use lclq.Error.{Result, ok, err}
use lclq.Types.{Message}
use lclq.Memory.State.{QueueData, InMemoryBackend, held, sum_held, total_message_count, on_queue}
use lclq.Memory.Totals.{sum_held-insert}
use lclq.Memory.Eviction.{maybe_evict}
use lclq.Memory.Eviction.Room.{CanMakeRoom, maybe_evict_room, maybe_evict_refused}
use lclq.Memory.Send.Counts.{AddsOneAtMost, held-send_message_locked}
use lclq.Memory.Send.{SendTimes, after_eviction, send_message_locked, send_message}

module _ (content_digest : String → String) (queue_id : String) (m : Message) (t : SendTimes) where
  -- The part behind the lock adds one message at most.
  pub on_queue-total :
      (b : InMemoryBackend)
      → total_message_count (on_queue b queue_id (λ q. send_message_locked content_digest q m t)).1
        ≤ suc (total_message_count b)
  on_queue-total b = elim (Option-cases (HashMap.get queue_id b.queues)) [
    | inl e ↦ rw (e, on_queue) (omega arith)
    | inr (q, e) ↦
        let q' = (send_message_locked content_digest q m t).1 in
        rw (e, on_queue)
          (within q q' (held-send_message_locked content_digest q m t)
            (sum_held-insert queue_id q q' b.queues e))
  ]
    where
      within :
          (q q' : QueueData)
          → AddsOneAtMost q q'
          → sum_held (HashMap.insert queue_id q' b.queues) + held q ≡ sum_held b.queues + held q'
          → sum_held (HashMap.insert queue_id q' b.queues) ≤ suc (sum_held b.queues)
      within q q' more sum = ground arith

  rest-total :
      (r : Result (Unit {0}) × InMemoryBackend)
      → total_message_count
          (after_eviction r
            (λ b'. on_queue b' queue_id (λ q. send_message_locked content_digest q m t))).1
        ≤ suc (total_message_count r.1)
  rest-total (ok _, b) = on_queue-total b
  rest-total (err e, b) = omega arith

module _ (content_digest : String → String) (b : InMemoryBackend) (queue_id : String) (m : Message)
    (t : SendTimes) where
  abbrev locked_part : InMemoryBackend → Result Message × InMemoryBackend
  locked_part b' = on_queue b' queue_id (λ q. send_message_locked content_digest q m t)

  -- A send between whose count, eviction and store no other call comes never takes a backend whose
  -- queues have unique IDs over max_messages, whatever its outcome, if the backend was within it
  -- and has an available message to evict or rejects new messages.
  pub send_message-le-max_messages :
      HasUniqueKeys b.queues
      → CanMakeRoom b
      → total_message_count b ≤ (b.config).max_messages
      → total_message_count (send_message content_digest b queue_id m t).1 ≤ (b.config).max_messages
  unfolding send_message
  send_message-le-max_messages u room within = go (maybe_evict b).0 refl
    where
      go :
          (r : Result (Unit {0}))
          → (maybe_evict b).0 ≡ r
          → total_message_count (after_eviction (maybe_evict b) locked_part).1
            ≤ (b.config).max_messages
      go (ok x) e = omega (
        arith,
        rest-total content_digest queue_id m t (maybe_evict b),
        maybe_evict_room b u room within e,
      )
      go (err x) e = rw (e, after_eviction) (rw (maybe_evict_refused b x e) within)
