-- ===== src/Memory/Eviction/Room.antt =====
-- About `maybe_evict` of storage/memory.rs: the room that it makes, and its refusal.
use lclq.Common.{
  ℕ, suc, ◌+◌, ◌≤◌, ◌<◌, String, ◌≡◌, ◌≢◌, refl, ap, ◌⊎◌, inl, inr, List, [], ◌∷◌, none, some,
  length, ltb, tail, arith, Bool-cases, eq_iff,
}
use lclq.Common.Predicates.{All, All-imp}
use lclq.Common.HashMap
use lclq.Common.HashMap.{HashMap, HasUniqueKeys}
use lclq.Error.{Error, ok, err}
use lclq.Types.{DateTime}
use lclq.Memory.State.{
  EvictionPolicy, lru, fifo, reject_new, StoredMessage, QueueData, InMemoryBackend, sum_held,
  total_message_count,
}
use lclq.Memory.Totals.{sum_held-insert}
use lclq.Memory.Eviction.{
  candidate, min_from, min_by_key, last_accesses, front_timestamps, pop_front, evict_from,
  evict_lru, evict_fifo, apply_policy, maybe_evict,
}

min_from_in {ℓ κ} :
    {A : Type ℓ} (P : A → Type κ) (key : A → ℕ) (best : A) (xs : List A)
    → P best
    → All P xs
    → P (min_from key best xs)
unfolding min_from
min_from_in P key best [] p a = p
min_from_in P key best (x ∷ xs) p a = elim (Bool-cases (ltb (key x) (key best))) [
  | inl e ↦ rw e (min_from_in P key x xs a.0 a.1)
  | inr e ↦ rw e (min_from_in P key best xs p a.1)
]

-- The messages that could be evicted.
abbrev pub sum_available : HashMap QueueData → ℕ
sum_available [] = 0
sum_available ((k, q) ∷ m) = length q.available_messages + sum_available m

-- A queue of that name holds an available message.
abbrev Evictable : HashMap QueueData → String × DateTime → Type 0
Evictable queues e =
    (q : QueueData) × (HashMap.get e.0 queues ≡ some q) × (0 < length q.available_messages)

Evictable-cons :
    (k : String) (w : QueueData) (m : HashMap QueueData) (e : String × DateTime)
    → HashMap.get k m ≡ none
    → Evictable m e
    → Evictable ((k, w) ∷ m) e
unfolding HashMap.get
Evictable-cons k w m e new (q, found, pos) = (q, ground (arith, eq_iff k e.0), pos)

-- Both policies choose among such queues, and find one if there is one.
abbrev Candidates : HashMap QueueData → List (String × DateTime) → Type 0
Candidates m es = All (Evictable m) es × (0 < sum_available m → es ≢ [])

extend_candidates :
    (k : String) (q : QueueData) (m : HashMap QueueData) (es : List (String × DateTime))
    → HashMap.get k m ≡ none
    → All (Evictable m) es
    → All (Evictable ((k, q) ∷ m)) es
extend_candidates k q m es new a = All-imp (Evictable m) _ (λ e. Evictable-cons k q m e new) es a

candidate-Candidates :
    (k : String) (q : QueueData) (m : HashMap QueueData) (ms : List StoredMessage)
    (t : StoredMessage → DateTime) (es : List (String × DateTime))
    → q.available_messages ≡ ms
    → HashMap.get k m ≡ none
    → Candidates m es
    → Candidates ((k, q) ∷ m) (candidate ms (λ s. (k, t s)) es)
unfolding HashMap.get candidate
candidate-Candidates k q m [] t es e new (all, found) =
    (extend_candidates k q m es new all, λ h. found (omega (arith, ap length e)))
candidate-Candidates k q m (s ∷ ms) t es e new (all, found) = (
  ((q, ground (arith, eq_iff k k), omega (arith, ap length e)), extend_candidates k q m es new all),
  λ h p. ground arith,
)

last_accesses-Candidates :
    (m : HashMap QueueData) → HasUniqueKeys m → Candidates m (last_accesses m)
unfolding last_accesses
last_accesses-Candidates [] u = (tt, λ h. absurd (omega arith))
last_accesses-Candidates ((k, q) ∷ m) u =
    candidate-Candidates k q m q.available_messages (λ _. q.last_access) (last_accesses m) refl u.0
      (last_accesses-Candidates m u.1)

front_timestamps-Candidates :
    (m : HashMap QueueData) → HasUniqueKeys m → Candidates m (front_timestamps m)
unfolding front_timestamps
front_timestamps-Candidates [] u = (tt, λ h. absurd (omega arith))
front_timestamps-Candidates ((k, q) ∷ m) u =
    candidate-Candidates k q m q.available_messages (λ s. (s.message).sent_timestamp)
      (front_timestamps m) refl u.0 (front_timestamps-Candidates m u.1)

length-tail {ℓ} : {A : Type ℓ} (xs : List A) → 0 < length xs → suc (length (tail xs)) ≡ length xs
length-tail [] h = absurd (omega arith)
length-tail (x ∷ xs) h = refl

pop_front-sum :
    (m : HashMap QueueData) (e : String × DateTime)
    → Evictable m e
    → suc (sum_held (pop_front m e.0)) ≡ sum_held m
unfolding pop_front
pop_front-sum m e (q, found, pos) =
    rw (found, pop_front)
      (omega (
        arith,
        sum_held-insert e.0 q (record q { available_messages = tail q.available_messages }) m found,
        length-tail q.available_messages pos,
      ))

-- The choice among candidates removes one message, if there is one.
evict_from-sum :
    (m : HashMap QueueData) (es : List (String × DateTime))
    → Candidates m es
    → 0 < sum_available m
    → suc (sum_held (evict_from m (min_by_key (λ e. e.1) es))) ≡ sum_held m
unfolding evict_from min_by_key
evict_from-sum m [] (all, found) h = absurd (found h refl)
evict_from-sum m (e ∷ es) (all, found) h =
    pop_front-sum m (min_from (λ e. e.1) e es)
      (min_from_in (Evictable m) (λ e. e.1) e es all.0 all.1)

-- Where no message is available, nothing is removed.
pub apply_policy-sum :
    (b : InMemoryBackend) (policy : EvictionPolicy)
    → HasUniqueKeys b.queues
    → 0 < sum_available b.queues
    → (apply_policy b policy).0 ≡ ok tt
    → suc (total_message_count (apply_policy b policy).1) ≡ total_message_count b
unfolding apply_policy evict_lru evict_fifo
apply_policy-sum b reject_new u h accepted = absurd (ground arith)
apply_policy-sum b lru u h accepted =
    evict_from-sum b.queues (last_accesses b.queues) (last_accesses-Candidates b.queues u) h
apply_policy-sum b fifo u h accepted =
    evict_from-sum b.queues (front_timestamps b.queues) (front_timestamps-Candidates b.queues u) h

pub rejected : (b : InMemoryBackend) → (apply_policy b reject_new).0 ≢ ok tt
unfolding apply_policy
rejected b h = ground arith

-- What lets the backend make room: a message to evict, or the policy to refuse.
abbrev pub CanMakeRoom : InMemoryBackend → Type 0
CanMakeRoom b = (0 < sum_available b.queues) ⊎ ((b.config).eviction_policy ≡ reject_new)

-- An eviction check that lets a send through leaves room for one message, if the queues have
-- unique IDs and the backend was within its limit and has a message to evict or rejects new
-- messages.
pub maybe_evict_room :
    (b : InMemoryBackend)
    → HasUniqueKeys b.queues
    → CanMakeRoom b
    → total_message_count b ≤ (b.config).max_messages
    → (maybe_evict b).0 ≡ ok tt
    → total_message_count (maybe_evict b).1 < (b.config).max_messages
unfolding maybe_evict
maybe_evict_room b u room within accepted =
    elim (Bool-cases (ltb (total_message_count b) (b.config).max_messages)) [
      | inl e ↦ rw e (ground arith)
      | inr e ↦ rw e (full (rw e at accepted) room)
    ]
  where
    full :
        (apply_policy b (b.config).eviction_policy).0 ≡ ok tt
        → CanMakeRoom b
        → total_message_count (apply_policy b (b.config).eviction_policy).1
          < (b.config).max_messages
    full accepted (inl h) =
        omega (arith, apply_policy-sum b (b.config).eviction_policy u h accepted)
    full accepted (inr p) = absurd (rejected b (rw p at accepted))

pub apply_policy_refused :
    (b : InMemoryBackend) (policy : EvictionPolicy) (e : Error)
    → (apply_policy b policy).0 ≡ err e
    → (apply_policy b policy).1 ≡ b
unfolding apply_policy
apply_policy_refused b reject_new e h = refl
apply_policy_refused b lru e h = cc
apply_policy_refused b fifo e h = cc

-- A refusal changes nothing.
pub maybe_evict_refused :
    (b : InMemoryBackend) (e : Error) → (maybe_evict b).0 ≡ err e → (maybe_evict b).1 ≡ b
unfolding maybe_evict
maybe_evict_refused b e h = ground (arith, apply_policy_refused b (b.config).eviction_policy e)
