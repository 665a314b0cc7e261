-- ===== src/PubSub/PushWorker/Attempts.antt =====
-- About pubsub/push_worker.rs: the attempts that are left to the tasks of a queue.
use mathlib.Core.Path.{subst}
use lclq.Common.{
  ℕ, suc, ◌+◌, ◌-◌, ◌≤◌, ◌<◌, ◌≡◌, refl, List, [], ◌∷◌, Option, none, some, arith, leb, Bool-cases,
  Option-cases, leb→lt, unwrap_or, ◌⊎◌, inl, inr, zero, ap, get_elem?, erase_idx,
}
use lclq.Common.Predicates.{All}
use lclq.Common.Word.{u32_max, next_u32}
use lclq.Error.{Error, Result, ok, err}
use lclq.Types.{DateTime, PushConfig}
use lclq.Storage.{StorageBackend}
use lclq.PubSub.PushQueue.{DeliveryTask, DeliveryQueue, pop, dequeue_ready}
use lclq.PubSub.PushQueue.Order.{pop-induction}
use lclq.PubSub.PushWorker.Backoff.{next_small}
use lclq.PubSub.PushWorker.{
  default_timeout_seconds, AttemptReadings, policy_of, calculate_retry, after_failure,
  after_delivery, handle_delivery_task, Pool, PoolStep, arrives, takes, handles, in_hands, handled,
  pool_step, run_workers,
}

-- How often a task can still be delivered.
abbrev attempts_left : Option PushConfig → ℕ → ℕ
attempts_left none attempt = 1
attempts_left (some config) attempt = suc ((policy_of config).max_attempts - suc attempt)

abbrev pub remaining : DeliveryTask → ℕ
remaining task = attempts_left (task.subscription).push_config task.attempt

abbrev pub work_left : DeliveryQueue → ℕ
work_left [] = 0
work_left (task ∷ queue) = remaining task + work_left queue

-- The machine words of a task: its attempts can still be counted in a `u32`.
abbrev FitsU32 : Option PushConfig → Type 0
FitsU32 none = Unit
FitsU32 (some config) = (policy_of config).max_attempts ≤ u32_max

abbrev pub IsCountable : DeliveryTask → Type 0
IsCountable task = (task.attempt < u32_max) × FitsU32 (task.subscription).push_config

pop-work_left :
    (queue : DeliveryQueue) (task : DeliveryTask) (rest : DeliveryQueue)
    → pop queue ≡ some (task, rest)
    → All IsCountable queue
    → (work_left queue ≡ remaining task + work_left rest) × IsCountable task × All IsCountable rest
pop-work_left =
    pop-induction
      (λ queue task rest.
        All IsCountable queue
        → (work_left queue ≡ remaining task + work_left rest)
          × IsCountable task
          × All IsCountable rest)
      (λ t all. (refl, all.0, tt)) (λ t best queue rest le p all. (refl, all.0, all.1))
      (λ t best queue rest lt p all.
        let (sum, fits, others) = p all.1 in (omega (arith, sum), fits, (all.0, others)))

Result-cases {ℓ} :
    {A : Type ℓ} (r : Result A) → ((a : A) × (r ≡ ok a)) ⊎ ((e : Error) × (r ≡ err e))
Result-cases (ok a) = inl (a, refl)
Result-cases (err e) = inr (e, refl)

module _ {State : Type 0} (backend : StorageBackend State) where
  after_failure-work_left :
      (task : DeliveryTask) (config : PushConfig) (r : AttemptReadings) (queue : DeliveryQueue)
      (state : State)
      → (task.subscription).push_config ≡ some config
      → IsCountable task
      → All IsCountable queue
      → let s =
          after_failure backend task r
            (calculate_retry task (policy_of config) r.retry_now)
            (queue, state) in
        (work_left s.0 < attempts_left (some config) task.attempt + work_left queue)
        × All IsCountable s.0
  unfolding after_failure calculate_retry
  after_failure-work_left task config r queue state e fits all =
      let cap : (policy_of config).max_attempts ≤ u32_max = subst FitsU32 e fits.1 in
      let step = next_small task.attempt fits.0 in
      elim (Bool-cases (leb (policy_of config).max_attempts (next_u32 task.attempt))) [
        | inl last ↦ rw (last, calculate_retry, after_failure) (omega arith, all)
        | inr more ↦
            let lt = leb→lt _ _ more in
            rw (more, e, calculate_retry, after_failure)
              (omega (arith, step, lt), ((omega (arith, step, lt, cap), cap), all))
      ]

  -- A delivery leaves fewer of them.
  handle_delivery_task-work_left :
      (task : DeliveryTask) (r : AttemptReadings) (queue : DeliveryQueue) (state : State)
      → IsCountable task
      → All IsCountable queue
      → let s = handle_delivery_task backend task r (queue, state) in
        (work_left s.0 < remaining task + work_left queue) × All IsCountable s.0
  unfolding handle_delivery_task after_delivery
  handle_delivery_task-work_left task r queue state fits all =
      elim (Option-cases (task.subscription).push_config) [
        | inl e ↦ rw (e, handle_delivery_task) (omega arith, all)
        | inr (config, e) ↦
            elim (Result-cases (
              r.deliver_message config.endpoint task.message (task.subscription).name
                (unwrap_or config.timeout_seconds default_timeout_seconds))) [
                  | inl (_, o) ↦ rw (e, o, handle_delivery_task) (omega arith, all)
                  | inr (_, o) ↦
                      rw (e, o, handle_delivery_task, after_delivery)
                        (after_failure-work_left task config r queue state e fits all)
                ]
      ]

  -- The attempts that are left to all tasks of a pool, those in the hands of workers included.
  abbrev pub pool_work : Pool backend → ℕ
  pool_work pool = work_left pool.queue + work_left pool.in_hand

  abbrev AllCountable : Pool backend → Type 0
  AllCountable pool = All IsCountable pool.queue × All IsCountable pool.in_hand

  -- The deliveries of a step, and the attempts that it brings in.
  abbrev count_handled : Option DeliveryTask → ℕ
  count_handled none = 0
  count_handled (some _) = 1

  abbrev step_deliveries : Pool backend → PoolStep backend → ℕ
  step_deliveries pool (handles i r) = count_handled (get_elem? pool.in_hand i)
  step_deliveries pool _ = 0

  abbrev step_arrivals : PoolStep backend → ℕ
  step_arrivals (arrives task) = remaining task
  step_arrivals _ = 0

  abbrev pub deliveries : Pool backend → List (PoolStep backend) → ℕ
  deliveries pool [] = 0
  deliveries pool (s ∷ steps) = step_deliveries pool s + deliveries (pool_step backend pool s) steps

  abbrev pub arrivals : List (PoolStep backend) → ℕ
  arrivals [] = 0
  arrivals (s ∷ steps) = step_arrivals s + arrivals steps

  abbrev IsCountableStep : PoolStep backend → Type 0
  IsCountableStep (arrives task) = IsCountable task
  IsCountableStep _ = Unit

  take_out-work_left :
      (tasks : List DeliveryTask) (i : ℕ) (task : DeliveryTask)
      → get_elem? tasks i ≡ some task
      → All IsCountable tasks
      → (work_left tasks ≡ remaining task + work_left (erase_idx tasks i))
        × IsCountable task
        × All IsCountable (erase_idx tasks i)
  take_out-work_left [] i task e all = absurd (ground arith)
  take_out-work_left (t ∷ tasks) zero task e all =
      let same : t ≡ task = cc in
      (ap (λ x. remaining x + work_left tasks) same, subst IsCountable same all.0, all.1)
  take_out-work_left (t ∷ tasks) (suc i) task e all =
      let (sum, fits, others) = take_out-work_left tasks i task e all.1 in
      (omega (arith, sum), fits, (all.0, others))

  takes-work_left :
      (pool : Pool backend) (now : DateTime)
      → AllCountable pool
      → let p = pool_step backend pool (takes now) in
        (pool_work p ≡ pool_work pool) × AllCountable p
  unfolding pool_step in_hands dequeue_ready
  takes-work_left pool now (all, hands) = elim (Option-cases (pop pool.queue)) [
    | inl e ↦ rw (e, dequeue_ready, in_hands) (refl, (all, hands))
    | inr ((task, rest), e) ↦ elim (Bool-cases (leb task.scheduled_time now)) [
      | inl t ↦
          let (sum, fits, others) = pop-work_left pool.queue task rest e all in
          rw (e, t, dequeue_ready, in_hands) (omega (arith, sum), (others, (fits, hands)))
      | inr f ↦ rw (e, f, dequeue_ready, in_hands) (refl, (all, hands))
    ]
  ]

  handles-work_left :
      (pool : Pool backend) (i : ℕ) (r : AttemptReadings)
      → AllCountable pool
      → let p = pool_step backend pool (handles i r) in
        (count_handled (get_elem? pool.in_hand i) + pool_work p ≤ pool_work pool) × AllCountable p
  unfolding pool_step handled
  handles-work_left pool i r (all, hands) = elim (Option-cases (get_elem? pool.in_hand i)) [
    | inl e ↦ rw (e, pool_step) (omega arith, (all, hands))
    | inr (task, e) ↦
        let (sum, fits, others) = take_out-work_left pool.in_hand i task e hands in
        let (less, fine) = handle_delivery_task-work_left task r pool.queue pool.state fits all in
        rw (e, pool_step, handled) (omega (arith, sum, less), (fine, others))
  ]

  step-work_left :
      (pool : Pool backend) (s : PoolStep backend)
      → AllCountable pool
      → IsCountableStep s
      → let p = pool_step backend pool s in
        (step_deliveries pool s + pool_work p ≤ pool_work pool + step_arrivals s) × AllCountable p
  unfolding pool_step
  step-work_left pool (arrives task) (all, hands) c = (omega arith, ((c, all), hands))
  step-work_left pool (takes now) all c =
      let (same, fine) = takes-work_left pool now all in (omega (arith, same), fine)
  step-work_left pool (handles i r) all c =
      let (less, fine) = handles-work_left pool i r all in (omega (arith, less), fine)

  -- However the workers of a pool and the publishers interleave, and whatever the endpoints answer
  -- to each attempt, the deliveries and the attempts then left do not exceed the attempts left at
  -- first and those of the tasks that arrive, if the attempt counts are below the largest u32 and
  -- the limits fit a u32.
  pub deliveries-le-work_left :
      (pool : Pool backend) (steps : List (PoolStep backend))
      → All IsCountable pool.queue
      → All IsCountable pool.in_hand
      → All IsCountableStep steps
      → deliveries pool steps + pool_work (run_workers backend pool steps)
        ≤ pool_work pool + arrivals steps
  unfolding run_workers
  deliveries-le-work_left pool [] all hands c = omega arith
  deliveries-le-work_left pool (s ∷ steps) all hands c =
      let (less, fine) = step-work_left pool s (all, hands) c.0 in
      omega
        (arith, less, deliveries-le-work_left (pool_step backend pool s) steps fine.0 fine.1 c.1)
