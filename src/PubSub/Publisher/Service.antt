-- ===== src/PubSub/Publisher/Service.antt =====
-- pubsub/publisher.rs: the handlers of the publisher service.
pub mod Fanout
use lclq.Common.{
  ℕ, String, Bool, true, false, ◌&&◌, List, [], ◌∷◌, map, Option, none, some, str_eq, keep_if,
  if◌then◌else◌, unwrap_or,
}
use lclq.Common.Replace.{strip_prefix}
use lclq.Common.Text.{◌<>◌}
use lclq.Error.{Error, queue_already_exists, Result, ok, err}
use lclq.Error.Display.{error_text}
use lclq.PubSub.Ids.{validate_topic_id}
use lclq.PubSub.Names.{ResourceName, parse, project, resource_id}
use lclq.PubSub.Proto.{
  Status, invalid_argument, not_found, already_exists, internal, unimplemented, Reply, reply,
  status, Topic, PubsubMessage,
}
use lclq.PubSub.Publisher.{
  backend_id, topic_to_queue_config, queue_config_to_topic, convert_all, copies_for, message_ids,
  first_ids, enqueue_push_subscriptions,
}
use lclq.PubSub.PushQueue.{DeliveryQueue}
use lclq.Storage.{StorageBackend}
use lclq.Types.{
  DateTime, MessageId, Message, QueueConfig, QueueType, sqs_standard, sqs_fifo, pub_sub_topic,
  SubscriptionConfig,
}

abbrev pub invalid {ℓ} : {A : Type ℓ} → (what : String) → Error → Reply A
invalid what e = status (record { code = invalid_argument; message = what <> ": " <> error_text e })

abbrev pub failed {ℓ} : {A : Type ℓ} → (what : String) → Error → Reply A
failed what e = status (record { code = internal; message = what <> ": " <> error_text e })

abbrev pub absent {ℓ} : {A : Type ℓ} → (what name : String) → Reply A
absent what name = status (record { code = not_found; message = what <> " not found: " <> name })

abbrev pub not_yet {ℓ} : {A : Type ℓ} → (method : String) → Reply A
not_yet method =
    status (record { code = unimplemented; message = method <> " not yet implemented" })

module _ {State : Type 0} {A : Type 0} where
  -- What follows a parsed name, with the ID that it stands for.
  unfoldable pub on_name :
      (what : String)
      → State
      → (ResourceName → Reply A × State)
      → Result ResourceName
      → Reply A × State
  on_name what s next (err e) = (invalid what e, s)
  on_name what s next (ok name) = next name

  unfoldable pub on_valid :
      (what : String) → State → Reply A × State → Result (Unit {0}) → Reply A × State
  on_valid what s next (err e) = (invalid what e, s)
  on_valid what s next (ok _) = next

  -- What follows a look-up that answers `not_found`, or a step that answers `internal`.
  unfoldable pub on_found {ℓ} :
      {B : Type ℓ}
      → (what name : String) → State
      → (B → Reply A × State)
      → Result B
      → Reply A × State
  on_found what name s next (err e) = (absent what name, s)
  on_found what name s next (ok b) = next b

  unfoldable pub on_done {ℓ} :
      {B : Type ℓ} → (what : String) → State → (B → Reply A × State) → Result B → Reply A × State
  on_done what s next (err e) = (failed what e, s)
  on_done what s next (ok b) = next b

-- The names of a project's topics; a queue whose name does not parse is of no project.
abbrev is_topic : QueueType → Bool
is_topic pub_sub_topic = true
is_topic _ = false

unfoldable pub is_of_project : (project_id : String) → Result ResourceName → Bool
is_of_project project_id (err e) = false
is_of_project project_id (ok name) = str_eq (project name) project_id

abbrev pub project_of : (text : String) → String
unfolding strip_prefix
project_of text = unwrap_or (strip_prefix "projects/" text) text

module _ {State : Type 0} (backend : StorageBackend State) (encode_base64 : List ℕ → String)
    (new_id : ℕ → MessageId) (now instant : ℕ → DateTime) where
  created_topic : (name : String) → Result QueueConfig × State → Reply Topic × State
  created_topic name (ok config, s) = (reply (queue_config_to_topic config), s)
  created_topic name (err (queue_already_exists _), s) =
      (status (record { code = already_exists; message = "Topic already exists: " <> name }), s)
  created_topic name (err e, s) = (failed "Failed to create topic" e, s)

  unfoldable pub create_topic : Topic → State → Reply Topic × State
  unfolding created_topic
  create_topic topic s =
      on_name "Invalid topic name" s
        (λ resource_name.
          on_valid "Invalid topic ID" s
            (on_done "Failed to convert topic" s
              (λ config. created_topic topic.name (backend.create_queue s config))
              (topic_to_queue_config topic))
            (validate_topic_id (resource_id resource_name)))
        (parse topic.name)

  updated_topic : Result QueueConfig × State → Reply Topic × State
  updated_topic (ok config, s) = (reply (queue_config_to_topic config), s)
  updated_topic (err e, s) = (failed "Failed to update topic" e, s)

  unfoldable pub update_topic : Option Topic → State → Reply Topic × State
  unfolding updated_topic
  update_topic none s =
      (status (record { code = invalid_argument; message = "Topic is required" }), s)
  update_topic (some topic) s =
      on_done "Failed to convert topic" s (λ config. updated_topic (backend.update_queue s config))
        (topic_to_queue_config topic)

  -- One subscription of the fan-out.
  unfoldable pub on_sent :
      (sub_id : String) (ids : List String)
      → Result (List Message) × State
      → (List String → State → Reply (List String) × State)
      → Reply (List String) × State
  on_sent sub_id ids (ok published, s) next = next (first_ids ids (message_ids published)) s
  on_sent sub_id ids (err e, s) next =
      (failed ("Failed to publish messages to subscription " <> sub_id) e, s)

  unfoldable pub fan_out :
      List SubscriptionConfig
      → List Message
      → (ids : List String) → State
      → Reply (List String) × State
  unfolding on_sent
  fan_out [] messages ids s = (reply ids, s)
  fan_out (sub ∷ subs) messages ids s =
      on_sent sub.id ids (backend.send_messages s sub.id (copies_for sub messages))
        (λ ids₁ s₁. fan_out subs messages ids₁ s₁)

  -- Push deliveries are queued if the fan-out came to its end.
  enqueued :
      List SubscriptionConfig
      → List Message
      → Option DeliveryQueue
      → Reply (List String) × State
      → Reply (List String) × (State × Option DeliveryQueue)
  enqueued subs messages queue (reply ids, s) =
      (reply ids, (s, enqueue_push_subscriptions instant subs messages queue))
  enqueued subs messages queue (status e, s) = (status e, (s, queue))

  unfoldable pub publish_to :
      List SubscriptionConfig
      → List Message
      → State × Option DeliveryQueue
      → Reply (List String) × (State × Option DeliveryQueue)
  unfolding enqueued
  publish_to [] messages s = (reply (message_ids messages), s)
  publish_to (sub ∷ subs) messages (s, queue) =
      enqueued (sub ∷ subs) messages queue (fan_out (sub ∷ subs) messages [] s)

  unfoldable pub subscriptions_of :
      (topic_id : String) → List SubscriptionConfig → List SubscriptionConfig
  subscriptions_of topic_id subs = keep_if (λ sub. str_eq sub.topic_id topic_id) subs

  unfoldable pub publish :
      (topic : String)
      → List PubsubMessage
      → State × Option DeliveryQueue
      → Reply (List String) × (State × Option DeliveryQueue)
  publish topic messages s =
      on_name "Invalid topic name" s
        (λ resource_name.
          let topic_id = backend_id resource_name in
          on_found "Topic" topic s
            (λ config.
              on_done "Failed to list subscriptions" s
                (λ subs.
                  publish_to (subscriptions_of topic_id subs)
                    (convert_all encode_base64 new_id now topic_id 0 messages) s)
                (backend.list_subscriptions (s.0)))
            (backend.get_queue (s.0) topic_id))
        (parse topic)

  unfoldable pub get_topic : (topic : String) → State → Reply Topic × State
  get_topic topic s =
      on_name "Invalid topic name" s
        (λ resource_name.
          on_found "Topic" topic s (λ config. (reply (queue_config_to_topic config), s))
            (backend.get_queue s (backend_id resource_name)))
        (parse topic)

  unfoldable pub list_topics : (project_name : String) → State → Reply (List Topic) × State
  list_topics project_name s =
      let wanted : QueueConfig → Bool =
        λ c. is_topic c.queue_type && is_of_project (project_of project_name) (parse c.name) in
      on_done "Failed to list topics" s
        (λ configs. (reply (map queue_config_to_topic (keep_if wanted configs)), s))
        (backend.list_queues s none)

  unfoldable pub list_topic_subscriptions : (topic : String) → State → Reply (List String) × State
  list_topic_subscriptions topic s =
      on_name "Invalid topic name" s
        (λ resource_name.
          on_found "Topic" topic s
            (λ config.
              on_done "Failed to list subscriptions" s
                (λ subs. (
                  reply (map (λ sub. sub.name) (subscriptions_of (backend_id resource_name) subs)),
                  s,
                ))
                (backend.list_subscriptions s))
            (backend.get_queue s (backend_id resource_name)))
        (parse topic)

  deleted_topic : (topic : String) → Result (Unit {0}) × State → Reply (Unit {0}) × State
  deleted_topic topic (ok _, s) = (reply tt, s)
  deleted_topic topic (err e, s) = (absent "Topic" topic, s)

  unfoldable pub delete_topic : (topic : String) → State → Reply (Unit {0}) × State
  unfolding deleted_topic
  delete_topic topic s =
      on_name "Invalid topic name" s
        (λ resource_name. deleted_topic topic (backend.delete_queue s (backend_id resource_name)))
        (parse topic)

  unfoldable pub detach_subscription : State → Reply (Unit {0}) × State
  detach_subscription s = (not_yet "DetachSubscription", s)
