-- ===== src/PubSub/PushWorker.antt =====
-- pubsub/push_worker.rs: one push delivery with its retries and its dead letter topic, and the
-- workers that share the queue. The HTTP request of `deliver_message` is outside of the model: each
-- handling of a task reads an outcome of its own, by the endpoint, the message, the subscription's
-- name and the timeout.
pub mod Backoff
pub mod Attempts
use lclq.Common.{
  ℕ, ◌+◌, ◌*◌, ◌^◌, min, String, Bool, List, [], ◌∷◌, Option, none, some, leb, unwrap_or,
  if◌then◌else◌, get_elem?, erase_idx,
}
use lclq.Common.HashMap
use lclq.Common.Text.{to_string}
use lclq.Common.Word.{u32_max, next_u32}
use lclq.Error.{Error, Result, ok, err}
use lclq.Types.{
  DateTime, seconds, MessageId, Message, MessageAttributeValue, MessageAttributes, RetryPolicy,
  default_retry_policy, PushConfig, SubscriptionConfig, DeadLetterPolicy,
}
use lclq.Storage.{StorageBackend}
use lclq.PubSub.PushQueue.{DeliveryTask, DeliveryQueue, enqueue, dequeue_ready}

abbrev pub default_timeout_seconds : ℕ
default_timeout_seconds = 30

-- `saturating_pow` and `saturating_mul` of a `u32`.
abbrev pub saturating_pow : ℕ → ℕ → ℕ
saturating_pow a n = min (a ^ n) u32_max

abbrev pub saturating_mul : ℕ → ℕ → ℕ
saturating_mul a b = min (a * b) u32_max

unfoldable pub backoff_secs : RetryPolicy → (attempt : ℕ) → ℕ
backoff_secs policy attempt =
    min (saturating_mul policy.min_backoff_seconds (saturating_pow 2 attempt))
      policy.max_backoff_seconds

unfoldable pub calculate_retry : DeliveryTask → RetryPolicy → (now : DateTime) → Option DeliveryTask
unfolding backoff_secs
calculate_retry task policy now =
    let next_attempt = next_u32 task.attempt in
    if leb policy.max_attempts next_attempt
    then none
    else some (record task {
      attempt = next_attempt;
      scheduled_time = now + seconds (backoff_secs policy task.attempt);
    })

abbrev text_attribute : String → MessageAttributeValue
text_attribute value = record {
  data_type = "String";
  string_value = some value;
  binary_value = none;
}

dlt_attributes : DeliveryTask → SubscriptionConfig → MessageAttributes
dlt_attributes task subscription =
    HashMap.insert "attempts" (text_attribute (to_string task.attempt)) (
      HashMap.insert "failure_reason" (text_attribute "max_push_attempts_exceeded") (
        HashMap.insert "original_subscription" (text_attribute subscription.name)
          (task.message).attributes))

-- The message for the dead letter topic, with a fresh ID and the time of its making.
unfoldable pub dlt_message :
    DeliveryTask → SubscriptionConfig → DeadLetterPolicy → MessageId → DateTime → Message
unfolding dlt_attributes
dlt_message task subscription policy id now = record {
  id = id;
  body = (task.message).body;
  attributes = dlt_attributes task subscription;
  queue_id = policy.dead_letter_topic;
  sent_timestamp = now;
  receive_count = 0;
  message_group_id = none;
  deduplication_id = none;
  sequence_number = none;
  delay_seconds = none;
}

-- What the handling of a task reads: the answer to the HTTP request, and after a failure the clock
-- for the retry, and the clock and a random ID for a dead letter.
pub record AttemptReadings : Type 0 where
  pub deliver_message :
      (endpoint : String) → Message → (subscription : String) → (timeout : ℕ) → Result (Unit {0})
  pub retry_now : DateTime
  pub new_id : MessageId
  pub sent_now : DateTime

abbrev pub policy_of : PushConfig → RetryPolicy
policy_of config = unwrap_or config.retry_policy default_retry_policy

module _ {State : Type 0} (backend : StorageBackend State) where
  -- A failure to send to the dead letter topic is only logged.
  unfoldable pub handle_max_retries :
      DeliveryTask → SubscriptionConfig → AttemptReadings → State → State
  unfolding dlt_message
  handle_max_retries task subscription r state = elim subscription.dead_letter_policy [
    | none ↦ state
    | some dlp ↦
        (backend.send_message state dlp.dead_letter_topic
          (dlt_message task subscription dlp r.new_id r.sent_now)).1
  ]

  -- What follows a failed delivery.
  after_failure :
      DeliveryTask
      → AttemptReadings
      → Option DeliveryTask
      → DeliveryQueue × State
      → DeliveryQueue × State
  unfolding handle_max_retries
  after_failure task r (some retry_task) (queue, state) = (enqueue queue retry_task, state)
  after_failure task r none (queue, state) =
      (queue, handle_max_retries task task.subscription r state)

  after_delivery :
      DeliveryTask
      → PushConfig
      → AttemptReadings
      → Result (Unit {0})
      → DeliveryQueue × State
      → DeliveryQueue × State
  unfolding calculate_retry after_failure
  after_delivery task config r (ok _) s = s
  after_delivery task config r (err _) s =
      after_failure task r (calculate_retry task (policy_of config) r.retry_now) s

  unfoldable pub handle_delivery_task :
      DeliveryTask → AttemptReadings → DeliveryQueue × State → DeliveryQueue × State
  unfolding after_delivery
  handle_delivery_task task r s = elim (task.subscription).push_config [
    | none ↦ s
    | some config ↦
        after_delivery task config r
          (r.deliver_message config.endpoint task.message (task.subscription).name
            (unwrap_or config.timeout_seconds default_timeout_seconds))
          s
  ]

  -- The pool: the shared queue, the tasks that workers have dequeued and not handled yet, and the
  -- backend.
  pub record Pool : Type 0 where
    pub queue : DeliveryQueue
    pub in_hand : List DeliveryTask
    pub state : State

  -- What happens to the pool, one lock of the queue at a time: a publisher enqueues a task, a worker
  -- dequeues a ready one, or the worker that has the task at an index handles it.
  pub data PoolStep : Type 0 where
    arrives : DeliveryTask → PoolStep
    takes : (now : DateTime) → PoolStep
    handles : (i : ℕ) → AttemptReadings → PoolStep

  in_hands : Pool → Option DeliveryTask × DeliveryQueue → Pool
  in_hands pool (none, queue) = pool
  in_hands pool (some task, queue) = record pool { queue = queue; in_hand = task ∷ pool.in_hand }

  handled : Pool → ℕ → DeliveryQueue × State → Pool
  handled pool i (queue, state) = record {
    queue = queue;
    in_hand = erase_idx pool.in_hand i;
    state = state;
  }

  unfoldable pub pool_step : Pool → PoolStep → Pool
  unfolding handle_delivery_task in_hands handled
  pool_step pool (arrives task) = record pool { queue = enqueue pool.queue task }
  pool_step pool (takes now) = in_hands pool (dequeue_ready pool.queue now)
  pool_step pool (handles i r) = elim (get_elem? pool.in_hand i) [
    | none ↦ pool
    | some task ↦ handled pool i (handle_delivery_task task r (pool.queue, pool.state))
  ]

  -- The loops of the workers until the shutdown signals, as the sequence of their steps.
  unfoldable pub run_workers : Pool → List PoolStep → Pool
  unfolding pool_step
  run_workers pool [] = pool
  run_workers pool (s ∷ steps) = run_workers (pool_step pool s) steps
