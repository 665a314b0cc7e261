-- ===== src/PubSub/PushQueue/Order.antt =====
-- About pubsub/push_queue.rs: the order in which tasks leave the queue, and the waiting.
use mathlib.Core.List.Perm
use mathlib.Core.List.{Perm, Memᴰ}
use mathlib.Core.Path.{subst}
use lclq.Common.{
  ◌+◌, ◌≤◌, ◌<◌, ◌≡◌, refl, sym, ◌∙◌, inl, inr, true, false, List, [], ◌∷◌, Option, none, some, leb,
  arith, if◌then◌else◌, Bool-cases, Option-cases,
}
use lclq.Common.Predicates.{All, All-imp}
use lclq.Types.{DateTime}
use lclq.PubSub.PushQueue.{
  DeliveryTask, DeliveryQueue, pop, peek, dequeue_ready, or_later, wait_duration, wait_and_dequeue,
}

-- What `pop` gives: a task that no other precedes, and the rest.
pub record IsEarliest (queue : DeliveryQueue) (task : DeliveryTask) (rest : DeliveryQueue)
    : Type 0 where
  pub same_tasks : Perm queue (task ∷ rest)
  pub earliest : All (λ t. task.scheduled_time ≤ t.scheduled_time) queue

pop-eq-none : (queue : DeliveryQueue) → pop queue ≡ none → queue ≡ []
unfolding pop
pop-eq-none [] h = refl
pop-eq-none (t ∷ queue) h = absurd (ground arith)

pop-cons_last :
    (t : DeliveryTask) (queue : DeliveryQueue)
    → pop queue ≡ none
    → pop (t ∷ queue) ≡ some (t, queue)
unfolding pop
pop-cons_last t queue e = rw (e, pop-eq-none queue e) refl

pop-cons_front :
    (t best : DeliveryTask) (queue rest : DeliveryQueue)
    → pop queue ≡ some (best, rest)
    → leb t.scheduled_time best.scheduled_time ≡ true
    → pop (t ∷ queue) ≡ some (t, queue)
unfolding pop
pop-cons_front t best queue rest e le = rw (e, le) refl

pop-cons_deeper :
    (t best : DeliveryTask) (queue rest : DeliveryQueue)
    → pop queue ≡ some (best, rest)
    → leb t.scheduled_time best.scheduled_time ≡ false
    → pop (t ∷ queue) ≡ some (best, t ∷ rest)
unfolding pop
pop-cons_deeper t best queue rest e gt = rw (e, gt) refl

some_inj : {x y : DeliveryTask × DeliveryQueue} → some x ≡ some y → x ≡ y
some_inj h = cc

-- The induction that follows the recursion of `pop`.
pub pop-induction :
    (P : DeliveryQueue → DeliveryTask → DeliveryQueue → Type 0)
    → ((t : DeliveryTask) → P (t ∷ []) t [])
    → ((t best : DeliveryTask) (queue rest : DeliveryQueue)
        → t.scheduled_time ≤ best.scheduled_time
        → P queue best rest
        → P (t ∷ queue) t queue)
    → ((t best : DeliveryTask) (queue rest : DeliveryQueue)
        → best.scheduled_time < t.scheduled_time
        → P queue best rest
        → P (t ∷ queue) best (t ∷ rest))
    → (queue : DeliveryQueue) (task : DeliveryTask) (rest : DeliveryQueue)
    → pop queue ≡ some (task, rest)
    → P queue task rest
unfolding pop
pop-induction P single front deeper [] task rest h = cc
pop-induction P single front deeper (t ∷ queue) task rest h =
    let by =
      λ (best : DeliveryTask) (r : DeliveryQueue) (e : pop (t ∷ queue) ≡ some (best, r))
          (p : P (t ∷ queue) best r).
        subst (λ x. P (t ∷ queue) x.0 x.1) (some_inj (sym e ∙ h)) p in
    elim (Option-cases (pop queue)) [
      | inl e ↦
          by t queue (pop-cons_last t queue e)
            (subst (λ q. P (t ∷ q) t q) (sym (pop-eq-none queue e)) (single t))
      | inr ((best, r), e) ↦
          let p = pop-induction P single front deeper queue best r e in
          elim (Bool-cases (leb t.scheduled_time best.scheduled_time)) [
            | inl le ↦
                by t queue (pop-cons_front t best queue r e le)
                  (front t best queue r (ground arith) p)
            | inr gt ↦
                by best (t ∷ r) (pop-cons_deeper t best queue r e gt)
                  (deeper t best queue r (ground arith) p)
          ]
    ]

pop-IsEarliest :
    (queue : DeliveryQueue) (task : DeliveryTask) (rest : DeliveryQueue)
    → pop queue ≡ some (task, rest)
    → IsEarliest queue task rest
pop-IsEarliest =
    pop-induction IsEarliest
      (λ t. record { same_tasks = Perm.refl _; earliest = (omega arith, tt) })
      (λ t best queue rest le v. record {
        same_tasks = Perm.refl _;
        earliest = (omega arith, All-imp _ _ (λ x later. omega arith) queue v.earliest);
      })
      (λ t best queue rest lt v. record {
        same_tasks = Perm.trans (Perm.cons t v.same_tasks) (Perm.swap best t rest);
        earliest = (omega arith, v.earliest);
      })

dequeue_ready_unpopped :
    (queue : DeliveryQueue) (now : DateTime) (task : DeliveryTask) (rest : DeliveryQueue)
    → pop queue ≡ some (task, rest)
    → dequeue_ready queue now
      ≡ (if leb task.scheduled_time now then (some task, rest) else (none, queue))
unfolding dequeue_ready
dequeue_ready_unpopped queue now task rest e = rw (e, dequeue_ready) refl

-- The two answers of `dequeue_ready`.
pub data Dequeued (queue : DeliveryQueue) (now : DateTime)
    : Option DeliveryTask × DeliveryQueue → Type 0 where
  ready :
      {task : DeliveryTask} {rest : DeliveryQueue}
      → IsEarliest queue task rest
      → task.scheduled_time ≤ now
      → Dequeued queue now (some task, rest)
  waiting : All (λ t. now < t.scheduled_time) queue → Dequeued queue now (none, queue)

-- dequeue_ready takes out an earliest task, whose time has come, and keeps all others, or it gives
-- none, changes nothing and no task's time has come.
pub dequeue_ready_lem :
    (queue : DeliveryQueue) (now : DateTime) → Dequeued queue now (dequeue_ready queue now)
unfolding dequeue_ready pop
dequeue_ready_lem queue now = elim (Option-cases (pop queue)) [
  | inl e ↦ rw (pop-eq-none queue e) (waiting tt)
  | inr ((task, rest), e) ↦
      let v = pop-IsEarliest queue task rest e in
      elim (Bool-cases (leb task.scheduled_time now)) [
        | inl le ↦ rw (dequeue_ready_unpopped queue now task rest e, le) (ready v (ground arith))
        | inr gt ↦
            rw (dequeue_ready_unpopped queue now task rest e, gt)
              (waiting (All-imp _ _ (λ x later. ground arith) queue v.earliest))
      ]
]

All-at :
    (P : DeliveryTask → Type 0) (queue : DeliveryQueue) (task : DeliveryTask)
    → Memᴰ task queue
    → All P queue
    → P task
All-at P [] task m h = elim m [ ]
All-at P (t ∷ queue) task (Memᴰ.head e) h = subst P (sym e) h.0
All-at P (t ∷ queue) task (Memᴰ.tail m) h = All-at P queue task m h.1

-- A task whose time has come is enough for an answer, whatever else is in the queue.
answers :
    (queue : DeliveryQueue) (now : DateTime) (r : Option DeliveryTask × DeliveryQueue)
    → Dequeued queue now r
    → (¬ All (λ t. now < t.scheduled_time) queue)
    → (task : DeliveryTask) × (rest : DeliveryQueue) × (r ≡ (some task, rest))
answers queue now _ (ready {task = task} {rest = rest} v le) h = (task, rest, refl)
answers queue now _ (waiting all) h = absurd (h all)

wait_duration-peek :
    (queue : DeliveryQueue) (task : DeliveryTask) (now d : DateTime)
    → peek queue ≡ some task
    → wait_duration queue now ≡ some d
    → task.scheduled_time ≤ now + d
unfolding wait_duration
wait_duration-peek queue task now d e h = ground arith

or_later-some :
    (a later : Option DeliveryTask × DeliveryQueue) (task : DeliveryTask) (rest : DeliveryQueue)
    → a ≡ (some task, rest)
    → or_later a later ≡ (some task, rest)
unfolding or_later
or_later-some a later task rest e = rw e refl

or_later-either :
    (a later : Option DeliveryTask × DeliveryQueue) (task : DeliveryTask) (rest : DeliveryQueue)
    → later ≡ (some task, rest)
    → (t : DeliveryTask) × (r : DeliveryQueue) × (or_later a later ≡ (some t, r))
unfolding or_later
or_later-either (none, _) later task rest e = (task, rest, e)
or_later-either (some t, r) later task rest e = (t, r, refl)

-- A round of wait_and_dequeue sleeps long enough: if the task that it waits for is still in the
-- queue when the next round comes, later by the computed duration, the call returns a task,
-- whatever else publishers and other workers did to the queue.
pub wait_and_dequeue_answers :
    (queue seen next last : DeliveryQueue) (now asked d later : DateTime) (task : DeliveryTask)
    (rounds : List (DateTime × DeliveryQueue))
    → peek seen ≡ some task
    → wait_duration seen asked ≡ some d
    → asked + d ≤ later
    → Memᴰ task next
    → (t : DeliveryTask) × (rest : DeliveryQueue) × (wait_and_dequeue queue
          ((now, next) ∷ (later, last) ∷ rounds)
        ≡ (some t, rest))
unfolding wait_and_dequeue
wait_and_dequeue_answers queue seen next last now asked d later task rounds p h le m =
    let due = wait_duration-peek seen task asked d p h in
    let (first, rest, found) =
      answers next later _ (dequeue_ready_lem next later)
        λ all. let late = All-at _ next task m all in omega arith in
    or_later-either _ _ first rest (or_later-some _ _ first rest found)
