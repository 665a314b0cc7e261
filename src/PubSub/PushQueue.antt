-- ===== src/PubSub/PushQueue.antt =====
-- pubsub/push_queue.rs: the queue of push deliveries. The binary heap is the list of its tasks,
-- and its greatest task by `Ord`, which reverses the times, is one with the earliest time; of two
-- with the same time the model takes the one nearer to the front, a choice the source leaves open.
pub mod Order
use lclq.Common.{
  ℕ, ◌+◌, ◌-◌, Bool, List, [], ◌∷◌, ◌++◌, Option, none, some, length, leb, ltb, ◌==◌, if◌then◌else◌,
}
use lclq.Types.{DateTime, Message, SubscriptionConfig}

-- An `Instant` is a count of nanoseconds, as a `DateTime` is.
pub record DeliveryTask : Type 0 where
  pub message : Message
  pub subscription : SubscriptionConfig
  pub attempt : ℕ
  pub scheduled_time : DateTime

abbrev pub DeliveryQueue : Type 0
DeliveryQueue = List DeliveryTask

abbrev pub new : DeliveryQueue
new = []

abbrev pub enqueue : DeliveryQueue → DeliveryTask → DeliveryQueue
enqueue queue task = task ∷ queue

-- `BinaryHeap::pop` and `BinaryHeap::peek`.
unfoldable pub pop : DeliveryQueue → Option (DeliveryTask × DeliveryQueue)
pop [] = none
pop (task ∷ queue) = elim (pop queue) [
  | none ↦ some (task, [])
  | some (best, rest) ↦
      if leb task.scheduled_time best.scheduled_time
      then some (task, queue)
      else some (best, task ∷ rest)
]

unfoldable pub peek : DeliveryQueue → Option DeliveryTask
peek queue = elim (pop queue) [ none ↦ none | some (task, _) ↦ some task ]

unfoldable pub dequeue_ready :
    DeliveryQueue → (now : DateTime) → Option DeliveryTask × DeliveryQueue
dequeue_ready queue now = elim (pop queue) [
  | none ↦ (none, queue)
  | some (task, rest) ↦ if leb task.scheduled_time now then (some task, rest) else (none, queue)
]

-- The time that a round of `wait_and_dequeue` sleeps for; with `none` it waits for a new task.
-- A millisecond is a million nanoseconds.
unfoldable pub wait_duration : DeliveryQueue → (now : DateTime) → Option DateTime
wait_duration queue now = elim (peek queue) [
  | none ↦ none
  | some task ↦
      if ltb now task.scheduled_time then some (task.scheduled_time - now) else some 1000000
]

-- `attempted` unless it has no task.
or_later :
    Option DeliveryTask × DeliveryQueue
    → Option DeliveryTask × DeliveryQueue
    → Option DeliveryTask × DeliveryQueue
or_later (none, _) later = later
or_later (some task, rest) later = (some task, rest)

-- The loop of `wait_and_dequeue`, for the rounds whose clock readings are given. The queue is shared
-- with the publishers and the other workers: each round comes with the queue as the next round finds
-- it, whatever they did to it meanwhile.
unfoldable pub wait_and_dequeue :
    DeliveryQueue → List (DateTime × DeliveryQueue) → Option DeliveryTask × DeliveryQueue
unfolding or_later
wait_and_dequeue queue [] = (none, queue)
wait_and_dequeue queue ((now, next) ∷ rounds) =
    or_later (dequeue_ready queue now) (wait_and_dequeue next rounds)

abbrev pub len : DeliveryQueue → ℕ
len queue = length queue

abbrev pub is_empty : DeliveryQueue → Bool
is_empty queue = len queue == 0
