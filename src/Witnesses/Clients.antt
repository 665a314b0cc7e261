-- ===== src/Witnesses/Clients.antt =====
-- The theorems on the clients of the backend, on names and IDs and on the push delivery at concrete
-- inputs.
use Prim.Native.Char.{Char}
use mathlib.Core.List.Memᴰ
use lclq.Common.{ℕ, ◌+◌, ◌≤◌, ◌≡◌, refl, ◌↔◌, ◌⊎◌, Bool, ◌||◌, List, [], ◌∷◌, some, arith}
use lclq.Common.HashMap
use lclq.Common.Chars.{all_chars, first_bad, is_ascii_alphabetic, is_ascii_digit}
use lclq.Error.{ok, err, internal}
use lclq.Types.{DateTime, default_retry_policy}
use lclq.Memory.State.{InMemoryBackend, total_message_count}
use lclq.Memory.Invariant.{IsValid}
use lclq.Memory.Receive.{requeue_expired, process_expired_visibility}
use lclq.Memory.Queues.{list_queues, filter_configs}
use lclq.Memory.Backend.{BackendReadings, memory_backend}
use lclq.Visibility.{process_all_expired_visibility}
use lclq.Visibility.Complete.{AllRunning, backends, process_all_expired_visibility_lem}
use lclq.Validation.{validate_sqs_queue_name, validate_pubsub_topic_id}
use lclq.Validation.Accepts.{IsStandardName, IsFifoName, validate_sqs_queue_name_iff}
use lclq.PubSub.Names.{topic, subscription, parse, display, split_slash}
use lclq.PubSub.Names.RoundTrip.{parse-display, display-parse}
use lclq.PubSub.Ids.{validate_topic_id, validate_subscription_id, validate_project_id}
use lclq.PubSub.Ids.Accepts.{
  IsProjectId, IsTopicId, validate_topic_id_iff, validate_project_id_iff, parse-display_of_valid,
  validate_topic_id-imp-validate_pubsub_topic_id,
}
use lclq.PubSub.PushQueue.{
  DeliveryTask, DeliveryQueue, pop, peek, wait_duration, dequeue_ready, wait_and_dequeue,
}
use lclq.PubSub.PushQueue.Order.{Dequeued, dequeue_ready_lem, wait_and_dequeue_answers}
use lclq.Storage.{StorageBackend}
use lclq.PubSub.PushWorker.{
  AttemptReadings, calculate_retry, Pool, PoolStep, arrives, takes, handles, run_workers,
}
use lclq.PubSub.PushWorker.Backoff.{calculate_retry_lem}
use lclq.PubSub.PushWorker.Attempts.{pool_work, deliveries, arrivals, deliveries-le-work_left}
use lclq.Witnesses.Codec.{codec}
use lclq.Witnesses.Data.{
  message_of, config_of, orders, dead, to_dead, busy_backend, busy, backend, times, readings,
  digest,
}
use lclq.Witnesses.Data

abbrev call_readings : ℕ → BackendReadings
call_readings i = record {
  creating = 1;
  sending = λ k. times;
  receiving = readings;
  changing = 100;
  expiring = 100;
}

abbrev tidy : InMemoryBackend
tidy = (process_all_expired_visibility (backends codec digest call_readings 100) busy_backend).1

busy_backend-IsValid : IsValid busy_backend
unfolding HashMap.get
busy_backend-IsValid = record {
  queues_valid = (
    (refl, tt),
    (record { own_id = refl; handles_unique = (refl, tt); dedup_ids_unique = tt }, tt),
  );
  subscriptions_unique = tt;
  subscription_ids = tt;
}

process_all_expired_visibility_lem_example :
    ((process_all_expired_visibility (backends codec digest call_readings 100) busy_backend).0
      ≡ ok tt)
    × (total_message_count tidy ≡ total_message_count busy_backend)
    × AllRunning 100 (requeue_expired 100 busy).in_flight_messages
unfolding HashMap.get HashMap.insert process_all_expired_visibility process_expired_visibility
    list_queues filter_configs
process_all_expired_visibility_lem_example =
    process_all_expired_visibility_lem codec digest call_readings 100 (λ i. omega arith)
      busy_backend busy_backend-IsValid "orders" (requeue_expired 100 busy) refl

-- A table with the letters and digits of ASCII alone.
abbrev ascii_alphanumeric : Char → Bool
ascii_alphanumeric c = is_ascii_alphabetic c || is_ascii_digit c

validate_sqs_queue_name_iff_example :
    (validate_sqs_queue_name ascii_alphanumeric "my-queue.fifo" ≡ ok tt) ↔ (
      IsStandardName ascii_alphanumeric "my-queue.fifo"
      ⊎ IsFifoName ascii_alphanumeric "my-queue.fifo")
validate_sqs_queue_name_iff_example =
    validate_sqs_queue_name_iff ascii_alphanumeric refl "my-queue.fifo"

parse-display_example :
    parse (display (topic "test-project" "test-topic")) ≡ ok (topic "test-project" "test-topic")
unfolding all_chars
parse-display_example = parse-display (topic "test-project" "test-topic") refl refl

display-parse_example :
    display (subscription "test-project" "test-sub")
    ≡ "projects/test-project/subscriptions/test-sub"
unfolding parse split_slash
display-parse_example =
    display-parse "projects/test-project/subscriptions/test-sub"
      (subscription "test-project" "test-sub") refl

parse-display_of_valid_example :
    (parse (display (topic "test-project" "test-topic")) ≡ ok (topic "test-project" "test-topic"))
    × (parse (display (subscription "test-project" "test-sub"))
        ≡ ok (subscription "test-project" "test-sub"))
unfolding validate_project_id first_bad validate_topic_id validate_subscription_id
parse-display_of_valid_example =
    parse-display_of_valid "test-project" "test-topic" "test-sub" refl refl refl

validate_topic_id_iff_example :
    ((validate_topic_id "abc" ≡ ok tt) ↔ IsTopicId "abc")
    × ((validate_subscription_id "abc" ≡ ok tt) ↔ IsTopicId "abc")
validate_topic_id_iff_example = validate_topic_id_iff "abc"

validate_project_id_iff_example :
    (validate_project_id "my-project" ≡ ok tt) ↔ IsProjectId "my-project"
validate_project_id_iff_example = validate_project_id_iff "my-project"

validate_topic_id-imp-validate_pubsub_topic_id_example :
    validate_pubsub_topic_id ascii_alphanumeric "my-topic" ≡ ok tt
unfolding first_bad validate_topic_id
validate_topic_id-imp-validate_pubsub_topic_id_example =
    validate_topic_id-imp-validate_pubsub_topic_id ascii_alphanumeric (λ c h. h) "my-topic" refl

abbrev task_at : (attempt : ℕ) → DateTime → DeliveryTask
task_at attempt at = record {
  message = message_of "m1" 0;
  subscription = Data.subscription;
  attempt = attempt;
  scheduled_time = at;
}

abbrev deliveries_queue : DeliveryQueue
deliveries_queue = task_at 0 50 ∷ task_at 2 40 ∷ []

dequeue_ready_lem_example : Dequeued deliveries_queue 45 (some (task_at 2 40), task_at 0 50 ∷ [])
unfolding dequeue_ready pop
dequeue_ready_lem_example = dequeue_ready_lem deliveries_queue 45

wait_and_dequeue_answers_example :
    (task : DeliveryTask) × (rest : DeliveryQueue) × (wait_and_dequeue deliveries_queue
        ((30, task_at 0 99 ∷ task_at 2 40 ∷ []) ∷ (41, []) ∷ [])
      ≡ (some task, rest))
unfolding wait_duration peek pop
wait_and_dequeue_answers_example =
    wait_and_dequeue_answers deliveries_queue deliveries_queue (task_at 0 99 ∷ task_at 2 40 ∷ []) []
      30 31 9 41 (task_at 2 40) [] refl refl (omega arith) (Memᴰ.tail (Memᴰ.head refl))

calculate_retry_lem_example :
    calculate_retry (task_at 2 40) default_retry_policy 1000
    ≡ some (record (task_at 2 40) { attempt = 3; scheduled_time = 40000001000 })
calculate_retry_lem_example =
    calculate_retry_lem (task_at 2 40) default_retry_policy 1000 (omega arith) (omega arith)

-- A delivery that fails and one that succeeds.
abbrev failure : AttemptReadings
failure = record {
  deliver_message = λ endpoint message name timeout. err (internal "HTTP request failed");
  retry_now = 60;
  new_id = "m9";
  sent_now = 61;
}

abbrev success : AttemptReadings
success = record failure { deliver_message = λ endpoint message name timeout. ok tt }

abbrev push_backend : StorageBackend InMemoryBackend
push_backend = memory_backend codec digest (call_readings 0)

abbrev pool : Pool push_backend
pool = record { queue = deliveries_queue; in_hand = []; state = backend }

-- Two workers: the second takes a task before the first has handled its own.
abbrev steps : List (PoolStep push_backend)
steps = takes 45 ∷ arrives (task_at 1 20) ∷ takes 46 ∷ handles 1 failure ∷ handles 0 success ∷ []

deliveries-le-work_left_example :
    deliveries push_backend pool steps
      + pool_work push_backend (run_workers push_backend pool steps)
    ≤ pool_work push_backend pool + arrivals push_backend steps
deliveries-le-work_left_example =
    deliveries-le-work_left push_backend pool steps
      ((omega arith, omega arith), ((omega arith, omega arith), tt)) tt
      (tt, ((omega arith, omega arith), (tt, (tt, (tt, tt)))))
