-- ===== src/Memory/Send/Interleaved.antt =====
-- Calls of `send_message` of storage/memory.rs that interleave. A call takes the lock of the queues
-- for the count of `maybe_evict`, again for the eviction if the backend is full, and again to store
-- its message: these three are steps, and a step of another call can come between any two of them.
use lclq.Common.{
  ℕ, zero, suc, ◌+◌, ◌≤◌, String, ◌≡◌, refl, ap, ◌∙◌, inl, inr, List, [], ◌∷◌, ltb, if◌then◌else◌,
  arith, Bool-cases, Option-cases,
}
use lclq.Common.HashMap
use lclq.Error.{Error, Result, ok, err}
use lclq.Types.{Message}
use lclq.Memory.State.{
  EvictionPolicy, lru, fifo, reject_new, InMemoryBackend, total_message_count, on_queue,
}
use lclq.Memory.Invariant.{IsValid, on_queue-IsValid}
use lclq.Memory.Eviction.{apply_policy}
use lclq.Memory.Eviction.Room.{CanMakeRoom, apply_policy-sum, apply_policy_refused, rejected}
use lclq.Memory.Eviction.Valid.{apply_policy-IsValid}
use lclq.Memory.Send.Bound.{on_queue-total}
use lclq.Memory.Send.Valid.{send_message_locked-IsValid}
use lclq.Memory.Send.{SendTimes, store_message}

-- The backend with the numbers of calls that have found it full and of those that may store.
pub record Sends : Type 0 where
  pub backend : InMemoryBackend
  pub evicting : ℕ
  pub storing : ℕ

pub data SendStep : Type 0 where
  counts evicts : SendStep
  stores : String → Message → SendTimes → SendStep

-- The comparison of `maybe_evict` decides how the call goes on.
unfoldable pub count_part : Sends → Sends
count_part s =
    if ltb (total_message_count s.backend) (s.backend.config).max_messages
    then record s { storing = suc s.storing }
    else record s { evicting = suc s.evicting }

-- A refused call ends.
abbrev pub evicted : Result (Unit {0}) × InMemoryBackend → Sends → Sends
evicted (ok _, b) s = record s { backend = b; storing = suc s.storing }
evicted (err _, b) s = record s { backend = b }

unfoldable pub evict_part : ℕ → Sends → Sends
evict_part zero s = s
evict_part (suc n) s =
    evicted (apply_policy s.backend (s.backend.config).eviction_policy) (record s { evicting = n })

module _ (content_digest : String → String) where
  unfoldable pub store_part : ℕ → Sends → String → Message → SendTimes → Sends
  store_part zero s queue_id m t = s
  store_part (suc n) s queue_id m t = record s {
    backend = (store_message content_digest s.backend queue_id m t).1;
    storing = n;
  }

  -- A step of one of so many senders: a new call begins only if one of them is free.
  unfoldable pub send_step : (senders : ℕ) → Sends → SendStep → Sends
  unfolding count_part evict_part store_part
  send_step senders s counts = if ltb (s.evicting + s.storing) senders then count_part s else s
  send_step senders s evicts = evict_part s.evicting s
  send_step senders s (stores queue_id m t) = store_part s.storing s queue_id m t

  unfoldable pub run_sends : (senders : ℕ) → Sends → List SendStep → Sends
  unfolding send_step
  run_sends senders s [] = s
  run_sends senders s (step ∷ steps) = run_sends senders (send_step senders s step) steps

  -- Each eviction finds a message to evict, or the policy is to refuse.
  abbrev pub FindsRoom : InMemoryBackend → SendStep → Type 0
  FindsRoom b counts = Unit
  FindsRoom b evicts = CanMakeRoom b
  FindsRoom b (stores queue_id m t) = Unit

  unfoldable pub AllFindRoom : (senders : ℕ) → Sends → List SendStep → Type 0
  unfolding send_step
  AllFindRoom senders s [] = Unit
  AllFindRoom senders s (step ∷ steps) =
      FindsRoom s.backend step × AllFindRoom senders (send_step senders s step) steps

-- No call is under way.
abbrev pub idle : InMemoryBackend → Sends
idle b = record { backend = b; evicting = 0; storing = 0 }

-- The messages held and those that may still be stored.
record IsWithin (limit others : ℕ) (s : Sends) : Type 0 where
  valid : IsValid s.backend
  same_limit : (s.backend.config).max_messages ≡ limit
  bounded : total_message_count s.backend + s.storing ≤ limit + others

apply_policy-limit :
    (b : InMemoryBackend) (policy : EvictionPolicy)
    → ((apply_policy b policy).1.config).max_messages ≡ (b.config).max_messages
unfolding apply_policy
apply_policy-limit b lru = refl
apply_policy-limit b fifo = refl
apply_policy-limit b reject_new = refl

store_message-limit :
    (content_digest : String → String) (b : InMemoryBackend) (queue_id : String) (m : Message)
    (t : SendTimes)
    → ((store_message content_digest b queue_id m t).1.config).max_messages
      ≡ (b.config).max_messages
store_message-limit d b queue_id m t = elim (Option-cases (HashMap.get queue_id b.queues)) [
  | inl e ↦ rw (e, on_queue) refl
  | inr (q, e) ↦ rw (e, on_queue) refl
]

count_part-IsWithin :
    (limit others : ℕ) (s : Sends)
    → s.storing ≤ others
    → IsWithin limit others s
    → IsWithin limit others (count_part s)
unfolding count_part
count_part-IsWithin limit others s free w =
    elim (Bool-cases (ltb (total_message_count s.backend) (s.backend.config).max_messages)) [
      | inl e ↦ rw e (record {
        valid = w.valid;
        same_limit = w.same_limit;
        bounded = ground (arith, w.same_limit, free);
      })
      | inr e ↦ rw e (record { valid = w.valid; same_limit = w.same_limit; bounded = w.bounded })
    ]

evicted-IsWithin :
    (limit others : ℕ) (s : Sends) (r : Result (Unit {0}) × InMemoryBackend)
    → IsValid r.1
    → (r.1.config).max_messages ≡ (s.backend.config).max_messages
    → (r.0 ≡ ok tt → suc (total_message_count r.1) ≡ total_message_count s.backend)
    → ((e : Error) → r.0 ≡ err e → r.1 ≡ s.backend)
    → IsWithin limit others s
    → IsWithin limit others (evicted r s)
evicted-IsWithin limit others s (ok _, b) valid same removed refused w = record {
  valid = valid;
  same_limit = same ∙ w.same_limit;
  bounded = omega (arith, removed refl, w.bounded);
}
evicted-IsWithin limit others s (err e, b) valid same removed refused w = record {
  valid = valid;
  same_limit = same ∙ w.same_limit;
  bounded = omega (arith, ap total_message_count (refused e refl), w.bounded);
}

apply_policy-frees :
    (b : InMemoryBackend)
    → IsValid b
    → CanMakeRoom b
    → (apply_policy b (b.config).eviction_policy).0 ≡ ok tt
    → suc (total_message_count (apply_policy b (b.config).eviction_policy).1)
      ≡ total_message_count b
unfolding apply_policy
apply_policy-frees b v (inl available) accepted =
    apply_policy-sum b (b.config).eviction_policy (v.queues_valid.0) available accepted
apply_policy-frees b v (inr refuses) accepted = absurd (rejected b (rw refuses at accepted))

evict_part-IsWithin :
    (limit others : ℕ) (n : ℕ) (s : Sends)
    → CanMakeRoom s.backend
    → IsWithin limit others s
    → IsWithin limit others (evict_part n s)
unfolding evict_part
evict_part-IsWithin limit others zero s room w = w
evict_part-IsWithin limit others (suc n) s room w =
    let policy = (s.backend.config).eviction_policy in
    evicted-IsWithin limit others (record s { evicting = n }) (apply_policy s.backend policy)
      (apply_policy-IsValid s.backend policy w.valid) (apply_policy-limit s.backend policy)
      (apply_policy-frees s.backend w.valid room) (apply_policy_refused s.backend policy)
      (record { valid = w.valid; same_limit = w.same_limit; bounded = w.bounded })

store_part-IsWithin :
    (content_digest : String → String) (limit others : ℕ) (n : ℕ) (s : Sends) (queue_id : String)
    (m : Message) (t : SendTimes)
    → n ≡ s.storing
    → IsWithin limit others s
    → IsWithin limit others (store_part content_digest n s queue_id m t)
unfolding store_part
store_part-IsWithin d limit others zero s queue_id m t e w = w
store_part-IsWithin d limit others (suc n) s queue_id m t e w = record {
  valid =
      on_queue-IsValid s.backend queue_id _ w.valid
        (λ q. send_message_locked-IsValid d queue_id q m t);
  same_limit = store_message-limit d s.backend queue_id m t ∙ w.same_limit;
  bounded = omega (arith, on_queue-total d queue_id m t s.backend, w.bounded, e);
}

module _ (content_digest : String → String) (limit others : ℕ) where
  send_step-IsWithin :
      (s : Sends) (step : SendStep)
      → FindsRoom content_digest s.backend step
      → IsWithin limit others s
      → IsWithin limit others (send_step content_digest (suc others) s step)
  unfolding send_step
  send_step-IsWithin s counts room w =
      elim (Bool-cases (ltb (s.evicting + s.storing) (suc others))) [
        | inl e ↦ rw e (count_part-IsWithin limit others s (ground arith) w)
        | inr e ↦ rw e w
      ]
  send_step-IsWithin s evicts room w = evict_part-IsWithin limit others s.evicting s room w
  send_step-IsWithin s (stores queue_id m t) room w =
      store_part-IsWithin content_digest limit others s.storing s queue_id m t refl w

  run_sends-IsWithin :
      (s : Sends) (steps : List SendStep)
      → AllFindRoom content_digest (suc others) s steps
      → IsWithin limit others s
      → IsWithin limit others (run_sends content_digest (suc others) s steps)
  unfolding run_sends AllFindRoom
  run_sends-IsWithin s [] room w = w
  run_sends-IsWithin s (step ∷ steps) room w =
      run_sends-IsWithin (send_step content_digest (suc others) s step) steps room.1
        (send_step-IsWithin s step room.0 w)

module _ (content_digest : String → String) where
  -- However the counts, the evictions and the stores of so many senders interleave over a
  -- well-formed backend within max_messages, it never holds more than max_messages and one message
  -- for each sender but one, if each eviction finds a message to evict or the policy is to refuse.
  pub run_sends-le-max_messages :
      (others : ℕ) (b : InMemoryBackend) (steps : List SendStep)
      → IsValid b
      → total_message_count b ≤ (b.config).max_messages
      → AllFindRoom content_digest (suc others) (idle b) steps
      → total_message_count (run_sends content_digest (suc others) (idle b) steps).backend
        ≤ (b.config).max_messages + others
  run_sends-le-max_messages others b steps valid within room =
      let w =
        run_sends-IsWithin content_digest (b.config).max_messages others (idle b) steps room
          (record { valid = valid; same_limit = refl; bounded = omega (arith, within) }) in
      omega (arith, w.bounded)
