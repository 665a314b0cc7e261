-- ===== src/PubSub/Subscriber/Service.antt =====
-- pubsub/subscriber.rs: the handlers of the subscriber service that answer at once.
pub mod Orphans
use lclq.Common.{ℕ, ◌*◌, String, Bool, List, [], ◌∷◌, map, Option, none, some, keep_if, false}
use lclq.Common.Text.{◌<>◌}
use lclq.Error.{Result, ok, err}
use lclq.PubSub.Ids.{validate_subscription_id}
use lclq.PubSub.Names.{ResourceName, parse, resource_id}
use lclq.PubSub.Proto.{Status, Reply, reply, status, as_u32, Subscription, ReceivedMessage}
use lclq.PubSub.Publisher.{backend_id}
use lclq.PubSub.Publisher.Service.{
  failed, absent, not_yet, on_name, on_valid, on_found, on_done, is_of_project, project_of,
}
use lclq.PubSub.Subscriber.{subscription_to_config, config_to_subscription, pulled}
use lclq.Storage
use lclq.Storage.{StorageBackend}
use lclq.Types.{QueueConfig, pub_sub_topic, ReceiveOptions, SubscriptionConfig}

-- The queue that holds the messages of a subscription.
unfoldable pub subscription_queue : SubscriptionConfig → QueueConfig
subscription_queue config = record {
  id = config.id;
  name = config.name;
  queue_type = pub_sub_topic;
  visibility_timeout = config.ack_deadline_seconds;
  message_retention_period = 604800;
  max_message_size = 10 * 1024 * 1024;
  delay_seconds = 0;
  dlq_config = none;
  content_based_deduplication = false;
  tags = [];
  redrive_allow_policy = none;
}

module _ {State : Type 0} (backend : StorageBackend State)
    (decode_base64 : String → Option (List ℕ)) where
  created : Result SubscriptionConfig × State → Reply Subscription × State
  created (ok config, s) = (reply (config_to_subscription config), s)
  created (err e, s) = (failed "Failed to create subscription" e, s)

  queue_created : SubscriptionConfig → Result QueueConfig × State → Reply Subscription × State
  unfolding created
  queue_created config (ok _, s) = created (backend.create_subscription s config)
  queue_created config (err e, s) = (failed "Failed to create subscription queue" e, s)

  unfoldable pub create_subscription : Subscription → State → Reply Subscription × State
  unfolding queue_created
  create_subscription subscription s =
      on_name "Invalid subscription name" s
        (λ resource_name.
          on_valid "Invalid subscription ID" s
            (on_name "Invalid topic name" s
              (λ topic.
                on_found "Topic" subscription.topic s
                  (λ _.
                    on_done "Failed to convert subscription" s
                      (λ config.
                        queue_created config (backend.create_queue s (subscription_queue config)))
                      (subscription_to_config subscription))
                  (backend.get_queue s (backend_id topic)))
              (parse subscription.topic))
            (validate_subscription_id (resource_id resource_name)))
        (parse subscription.name)

  -- Most handlers begin with the subscription's name, and some with its configuration.
  unfoldable pub with_id :
      {A : Type 0} → (name : String) → State → (String → Reply A × State) → Reply A × State
  with_id name s next =
      on_name "Invalid subscription name" s (λ n. next (backend_id n)) (parse name)

  unfoldable pub with_subscription :
      {A : Type 0}
      → (name : String) → State
      → (String → SubscriptionConfig → Reply A × State)
      → Reply A × State
  with_subscription name s next =
      with_id name s
        λ sub_id. on_found "Subscription" name s (next sub_id) (backend.get_subscription s sub_id)

  unfoldable pub get_subscription : (name : String) → State → Reply Subscription × State
  get_subscription name s =
      with_subscription name s λ sub_id config. (reply (config_to_subscription config), s)

  unfoldable pub list_subscriptions :
      (project_name : String) → State → Reply (List Subscription) × State
  list_subscriptions project_name s =
      let wanted : SubscriptionConfig → Bool =
        λ c. is_of_project (project_of project_name) (parse c.name) in
      on_done "Failed to list subscriptions" s
        (λ configs. (reply (map config_to_subscription (keep_if wanted configs)), s))
        (backend.list_subscriptions s)

  deleted : (name : String) → Result (Unit {0}) × State → Reply (Unit {0}) × State
  deleted name (ok _, s) = (reply tt, s)
  deleted name (err _, s) = (absent "Subscription" name, s)

  -- The queue goes first, and an error of that is ignored.
  unfoldable pub delete_subscription : (name : String) → State → Reply (Unit {0}) × State
  unfolding deleted
  delete_subscription name s = with_id name s λ sub_id.
      deleted name (backend.delete_subscription ((backend.delete_queue s sub_id).1) sub_id)

  -- A loop over acknowledgement IDs, which returns at the first error.
  handled_all :
      (what : String) (one : String → State → Result (Unit {0}) × State)
      → List String
      → State
      → Reply (Unit {0}) × State
  handled_all what one [] s = (reply tt, s)
  handled_all what one (ack_id ∷ ack_ids) s =
      let (result, s₁) = one ack_id s in
      on_done what s₁ (λ _. handled_all what one ack_ids s₁) result

  unfoldable pub modify_ack_deadline :
      (name : String) (ack_ids : List String) (ack_deadline_seconds : ℕ)
      → State
      → Reply (Unit {0}) × State
  unfolding handled_all
  modify_ack_deadline name ack_ids ack_deadline_seconds s =
      with_subscription name s λ sub_id config.
        handled_all "Failed to modify ack deadline"
          (λ ack_id s₁. backend.change_visibility s₁ sub_id ack_id (as_u32 ack_deadline_seconds))
          ack_ids s

  unfoldable pub acknowledge :
      (name : String) (ack_ids : List String) → State → Reply (Unit {0}) × State
  unfolding handled_all
  acknowledge name ack_ids s = with_subscription name s λ sub_id config.
      handled_all "Failed to acknowledge message"
        (λ ack_id s₁. backend.delete_message s₁ sub_id ack_id) ack_ids s

  pulled_all : Result (List Storage.ReceivedMessage) × State → Reply (List ReceivedMessage) × State
  pulled_all (ok messages, s) = (reply (map (pulled decode_base64) messages), s)
  pulled_all (err e, s) = (failed "Failed to pull messages" e, s)

  unfoldable pub pull_options : (max : ℕ) → SubscriptionConfig → ReceiveOptions
  pull_options max config = record {
    max_messages = as_u32 max;
    visibility_timeout = some config.ack_deadline_seconds;
    wait_time_seconds = 0;
    attribute_names = [];
    message_attribute_names = [];
  }

  unfoldable pub pull : (name : String) (max : ℕ) → State → Reply (List ReceivedMessage) × State
  unfolding pulled_all
  pull name max s =
      with_subscription name s
        λ sub_id config. pulled_all (backend.receive_messages s sub_id (pull_options max config))
