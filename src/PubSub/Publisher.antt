-- ===== src/PubSub/Publisher.antt =====
-- pubsub/publisher.rs: the publisher service. A handler takes the state of the backend and gives the
-- answer with the next state. `encode_base64` stands for the standard engine of the `base64` crate;
-- message IDs, times and instants are readings. The handlers are in the child module.
pub mod Service
use lclq.Common.{
  ℕ, ◌*◌, suc, String, Bool, true, false, List, [], ◌∷◌, ◌++◌, map, Option, none, some, str_eq,
  keep_if, if◌then◌else◌, unwrap_or,
}
use lclq.Common.HashMap.{HashMap}
use lclq.Common.Replace.{strip_prefix}
use lclq.Common.Text.{◌<>◌}
use lclq.Error.{Error, queue_already_exists, Result, ok, err}
use lclq.Error.Display.{error_text}
use lclq.PubSub.Ids.{validate_topic_id}
use lclq.PubSub.Names.{ResourceName, parse, project, resource_id}
use lclq.PubSub.Proto.{
  Status, invalid_argument, not_found, already_exists, internal, unimplemented, Reply, reply,
  status, as_u32, Topic, PubsubMessage,
}
use lclq.PubSub.PushQueue.{DeliveryTask, DeliveryQueue, enqueue}
use lclq.Storage.{StorageBackend}
use lclq.Types.{
  DateTime, MessageId, Message, MessageAttributes, MessageAttributeValue, QueueConfig, QueueType,
  sqs_standard, sqs_fifo, pub_sub_topic, SubscriptionConfig,
}

-- `format!("{}:{}", project, resource_id)`, the ID of a queue or a subscription.
unfoldable pub backend_id : ResourceName → String
backend_id name = project name <> ":" <> resource_id name

unfoldable pub retention : Option ℕ → ℕ
retention none = 604800
retention (some seconds) = as_u32 seconds

topic_config : Topic → Result ResourceName → Result QueueConfig
topic_config topic (err e) = err e
topic_config topic (ok resource_name) = ok (record {
  id = backend_id resource_name;
  name = topic.name;
  queue_type = pub_sub_topic;
  visibility_timeout = 60;
  message_retention_period = retention topic.message_retention_duration;
  max_message_size = 10 * 1024 * 1024;
  delay_seconds = 0;
  dlq_config = none;
  content_based_deduplication = false;
  tags = topic.labels;
  redrive_allow_policy = none;
})

unfoldable pub topic_to_queue_config : Topic → Result QueueConfig
unfolding topic_config
topic_to_queue_config topic = topic_config topic (parse topic.name)

abbrev pub queue_config_to_topic : QueueConfig → Topic
queue_config_to_topic config = record {
  name = config.name;
  labels = config.tags;
  message_retention_duration = some config.message_retention_period;
}

string_attributes : HashMap String → MessageAttributes
string_attributes [] = []
string_attributes ((key, text) ∷ rest) =
    (key, record { data_type = "String"; string_value = some text; binary_value = none })
    ∷ string_attributes rest

unfoldable pub pubsub_message_to_message :
    (encode_base64 : List ℕ → String)
    → PubsubMessage
    → (topic_id : String) (id : MessageId) (now : DateTime) → Message
unfolding string_attributes
pubsub_message_to_message encode_base64 msg topic_id new_id now = record {
  id = new_id;
  body = encode_base64 msg.data_;
  attributes = string_attributes msg.attributes;
  queue_id = topic_id;
  sent_timestamp = now;
  receive_count = 0;
  message_group_id = if str_eq msg.ordering_key "" then none else some msg.ordering_key;
  deduplication_id = none;
  sequence_number = none;
  delay_seconds = none;
}

abbrev pub fail {ℓ} : {A : Type ℓ} → Status → Reply A
fail s = status s

-- The messages of a request, with the readings of each.
unfoldable pub convert_all :
    (encode_base64 : List ℕ → String) (new_id : ℕ → MessageId) (now : ℕ → DateTime)
    (topic_id : String)
    → ℕ
    → List PubsubMessage
    → List Message
convert_all encode_base64 new_id now topic_id i [] = []
convert_all encode_base64 new_id now topic_id i (msg ∷ rest) =
    pubsub_message_to_message encode_base64 msg topic_id (new_id i) (now i)
    ∷ convert_all encode_base64 new_id now topic_id (suc i) rest

-- The copies of the messages for a subscription.
abbrev pub copy_for : SubscriptionConfig → Message → Message
copy_for sub m = record m { queue_id = sub.id }

unfoldable pub copies_for : SubscriptionConfig → List Message → List Message
copies_for sub messages = map (copy_for sub) messages

unfoldable pub message_ids : List Message → List String
message_ids messages = map (λ m. m.id) messages

-- The IDs of the first subscription whose answer has any.
abbrev pub first_ids : List String → List String → List String
first_ids [] found = found
first_ids (id ∷ ids) found = id ∷ ids

-- The tasks that `enqueue_push_subscriptions` adds, which share no clock.
abbrev pub task_at : (instant : ℕ → DateTime) → ℕ → SubscriptionConfig → Message → DeliveryTask
task_at instant i sub m = record {
  message = m;
  subscription = sub;
  attempt = 0;
  scheduled_time = instant i;
}

enqueue_messages :
    (instant : ℕ → DateTime)
    → SubscriptionConfig
    → ℕ
    → List Message
    → DeliveryQueue
    → ℕ × DeliveryQueue
enqueue_messages instant sub i [] queue = (i, queue)
enqueue_messages instant sub i (m ∷ rest) queue =
    enqueue_messages instant sub (suc i) rest (enqueue queue (task_at instant i sub m))

enqueue_all :
    (instant : ℕ → DateTime)
    → ℕ
    → List SubscriptionConfig
    → List Message
    → DeliveryQueue
    → DeliveryQueue
unfolding enqueue_messages
enqueue_all instant i [] messages queue = queue
enqueue_all instant i (sub ∷ subs) messages queue = elim sub.push_config [
  | none ↦ enqueue_all instant i subs messages queue
  | some _ ↦
      let (next, queued) = enqueue_messages instant sub i messages queue in
      enqueue_all instant next subs messages queued
]

unfoldable pub enqueue_push_subscriptions :
    (instant : ℕ → DateTime)
    → List SubscriptionConfig
    → List Message
    → Option DeliveryQueue
    → Option DeliveryQueue
unfolding enqueue_all
enqueue_push_subscriptions instant subs messages none = none
enqueue_push_subscriptions instant subs messages (some queue) =
    some (enqueue_all instant 0 subs messages queue)
