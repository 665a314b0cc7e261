-- ===== src/Visibility/Complete.antt =====
-- About core/visibility.rs over the in-memory backend of storage/memory.rs: what a run leaves behind.
use mathlib.Core.Path.{subst}
use lclq.Common.{
  ℕ, suc, ◌≤◌, ◌<◌, String, ◌≡◌, refl, ◌∙◌, inl, inr, ◌⊎◌, List, [], ◌∷◌, some, map, arith,
  length-append, ◌≢◌, str_eq, eq_iff, Bool-cases, Option-cases,
}
use lclq.Common.HashMap
use lclq.Common.HashMap.{HashMap, values, HasUniqueKeys, get-insert}
use lclq.Common.Entries.{AllEntries}
use lclq.Error.{Result, ok, err}
use lclq.Types.{DateTime, QueueConfig}
use lclq.Storage.{StorageBackend}
use lclq.Receipt.{ReceiptCodec}
use lclq.Memory.State.{
  InFlightMessage, QueueData, InMemoryBackend, on_queue, held, total_message_count,
}
use lclq.Memory.Totals.{sum_held-insert}
use lclq.Memory.Invariant.{IsValid, QueueIsValid, QueuesAreValid-get}
use lclq.Memory.Queues.{list_queues, filter_configs}
use lclq.Memory.Receive.{requeue_expired, process_expired_visibility}
use lclq.Memory.Receive.Expiry.{
  returned, still_in_flight, requeue_expired_lem, length-returned-still,
}
use lclq.Memory.Receive.Valid.{process_expired_visibility-IsValid}
use lclq.Memory.Backend.{BackendReadings, memory_backend}
use lclq.Visibility.{
  processed, process_listed, process_queue_expired_visibility, process_queues,
  process_all_expired_visibility,
}

-- No message of a queue is in flight with a time that is over at `now`.
abbrev pub AllRunning : DateTime → HashMap InFlightMessage → Type 0
AllRunning now [] = Unit
AllRunning now ((handle, x) ∷ m) = (now < x.visibility_expires_at) × AllRunning now m

still_in_flight-AllRunning :
    (start now : DateTime) (m : HashMap InFlightMessage)
    → start ≤ now
    → AllRunning start (still_in_flight now m)
still_in_flight-AllRunning start now [] le = tt
still_in_flight-AllRunning start now ((h, x) ∷ m) le =
    ground (arith, still_in_flight-AllRunning start now m le)

held-requeue_expired :
    (now : DateTime) (q : QueueData)
    → HasUniqueKeys q.in_flight_messages
    → held (requeue_expired now q) ≡ held q
held-requeue_expired now q u = rw ((requeue_expired_lem now q u).0) (
    omega (
      arith,
      length-append q.available_messages (returned now q.in_flight_messages),
      length-returned-still now q.in_flight_messages,
    ))

-- What is left to do: each queue is finished, or its ID is still in the list.
abbrev IsPending : String → List QueueConfig → Type 0
IsPending id [] = ⊥
IsPending id (c ∷ cs) = (c.id ≡ id) ⊎ IsPending id cs

abbrev FinishedBut : DateTime → InMemoryBackend → List QueueConfig → Type 0
FinishedBut start b cs =
    (id : String) (q : QueueData)
    → HashMap.get id b.queues ≡ some q
    → AllRunning start q.in_flight_messages ⊎ IsPending id cs

process_one-total :
    (b : InMemoryBackend) (id : String) (now : DateTime)
    → IsValid b
    → total_message_count (process_expired_visibility b id now).1 ≡ total_message_count b
unfolding process_expired_visibility
process_one-total b id now v = elim (Option-cases (HashMap.get id b.queues)) [
  | inl e ↦ rw (e, on_queue) refl
  | inr (q, e) ↦
      rw (e, on_queue)
        (omega (
          arith,
          sum_held-insert id q (requeue_expired now q) b.queues e,
          held-requeue_expired now q
              (QueuesAreValid-get b.queues id q v.queues_valid e).handles_unique,
        ))
]

inserted :
    (k id : String) (new q : QueueData) (queues : HashMap QueueData)
    → HashMap.get id (HashMap.insert k new queues) ≡ some q
    → ((k ≡ id) × (new ≡ q)) ⊎ ((HashMap.get id queues ≡ some q) × (k ≢ id))
inserted k id new q queues got = elim (Bool-cases (str_eq k id)) [
  | inl e ↦ inl ((eq_iff k id).0 e, ground (arith, get-insert k id new queues))
  | inr e ↦ inr (ground (arith, get-insert k id new queues), λ same. ground (arith, eq_iff k id))
]

still-IsPending :
    (start : DateTime) (c : QueueConfig) (cs : List QueueConfig) (id : String) (q : QueueData)
    → AllRunning start q.in_flight_messages ⊎ IsPending id (c ∷ cs)
    → (c.id ≡ id → AllRunning start q.in_flight_messages ⊎ IsPending id cs)
    → AllRunning start q.in_flight_messages ⊎ IsPending id cs
still-IsPending start c cs id q (inl done) own = inl done
still-IsPending start c cs id q (inr (inl same)) own = own same
still-IsPending start c cs id q (inr (inr p)) own = inr p

requeue_expired-AllRunning :
    (start now : DateTime) (q : QueueData)
    → HasUniqueKeys q.in_flight_messages
    → start ≤ now
    → AllRunning start (requeue_expired now q).in_flight_messages
requeue_expired-AllRunning start now q u le =
    rw ((requeue_expired_lem now q u).0)
      (still_in_flight-AllRunning start now q.in_flight_messages le)

process_one-FinishedBut :
    (b : InMemoryBackend) (c : QueueConfig) (cs : List QueueConfig) (start now : DateTime)
    → IsValid b
    → start ≤ now
    → FinishedBut start b (c ∷ cs)
    → FinishedBut start (process_expired_visibility b c.id now).1 cs
unfolding process_expired_visibility
process_one-FinishedBut b c cs start now v le f id q =
    elim (Option-cases (HashMap.get c.id b.queues)) [
      | inl e ↦
          rw (e, on_queue)
            λ got. still-IsPending start c cs id q (f id q got) λ same. absurd (ground arith)
      | inr (q₀, e) ↦
          rw (e, on_queue)
            λ got. elim (inserted c.id id (requeue_expired now q₀) q b.queues got) [
              | inl (same, is_new) ↦ inl (
                  subst (λ x. AllRunning start x.in_flight_messages) is_new
                    (requeue_expired-AllRunning start now q₀
                      (QueuesAreValid-get b.queues c.id q₀ v.queues_valid e).handles_unique le))
              | inr (old, other) ↦
                  still-IsPending start c cs id q (f id q old) (λ same. absurd (other same))
            ]
    ]

processed-state {ℓ} : {A : Type ℓ} (r : Result A × InMemoryBackend) → (processed r).1 ≡ r.1
processed-state (ok a, b) = refl
processed-state (err e, b) = refl

AllEntries-IsPending :
    (start : DateTime) (queues : HashMap QueueData) (id : String) (q : QueueData)
    → AllEntries QueueIsValid queues
    → HashMap.get id queues ≡ some q
    → IsPending id (map (λ q. q.config) (values queues))
unfolding HashMap.get
AllEntries-IsPending start [] id q v found = cc
AllEntries-IsPending start ((k, w) ∷ queues) id q v found = elim (Bool-cases (str_eq k id)) [
  | inl e ↦ inl ((v.0).own_id ∙ (eq_iff k id).0 e)
  | inr e ↦ inr (AllEntries-IsPending start queues id q v.1 (ground arith))
]

module _ (codec : ReceiptCodec) (content_digest : String → String) (r : ℕ → BackendReadings)
    (start : DateTime) where
  abbrev pub backends : ℕ → StorageBackend InMemoryBackend
  backends i = memory_backend codec content_digest (r i)

  process_queue-state :
      (i : ℕ) (b : InMemoryBackend) (id : String)
      → (process_queue_expired_visibility backends i b id).1
        ≡ (process_expired_visibility b id (r i).expiring).1
  unfolding process_queue_expired_visibility
  process_queue-state i b id = processed-state (process_expired_visibility b id (r i).expiring)

  process_queues-lem :
      ((i : ℕ) → start ≤ (r i).expiring)
      → (i : ℕ) (b : InMemoryBackend) (cs : List QueueConfig) → IsValid b
      → FinishedBut start b cs
      → (total_message_count (process_queues backends i b cs) ≡ total_message_count b)
        × FinishedBut start (process_queues backends i b cs) []
  unfolding process_queues
  process_queues-lem late i b [] v f = (refl, f)
  process_queues-lem late i b (c ∷ cs) v f =
      let b' = (process_expired_visibility b c.id (r i).expiring).1 in
      let (total, finished) =
        process_queues-lem late (suc i) b' cs
          (process_expired_visibility-IsValid b c.id (r i).expiring v)
          (process_one-FinishedBut b c cs start (r i).expiring v (late i) f) in
      rw (process_queue-state i b c.id, process_queues)
        (total ∙ process_one-total b c.id (r i).expiring v, finished)

  -- A run of the visibility manager over a valid in-memory backend succeeds, keeps the number of
  -- messages, and leaves no message in flight in any queue whose time was over at a moment before
  -- all the clock readings of the run.
  pub process_all_expired_visibility_lem :
      ((i : ℕ) → start ≤ (r i).expiring)
      → (b : InMemoryBackend) → IsValid b
      → (id : String) (q : QueueData)
      → HashMap.get id ((process_all_expired_visibility backends b).1).queues ≡ some q
      → ((process_all_expired_visibility backends b).0 ≡ ok tt)
        × (total_message_count (process_all_expired_visibility backends b).1
            ≡ total_message_count b)
        × AllRunning start q.in_flight_messages
  unfolding process_all_expired_visibility process_listed list_queues filter_configs
  process_all_expired_visibility_lem late b v id q found =
      let (total, finished) =
        process_queues-lem late 1 b (map (λ q. q.config) (values b.queues)) v
          (λ id q found. inr (AllEntries-IsPending start b.queues id q v.queues_valid.1 found)) in
      (refl, total, elim (finished id q found) [ inl done ↦ done | inr p ↦ absurd p ])
