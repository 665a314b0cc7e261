-- ===== src/PubSub/Subscriber.antt =====
-- pubsub/subscriber.rs: the conversions of subscriptions and received messages. `decode_base64`
-- stands for the standard engine of the `base64` crate.
pub mod Service
pub mod Stream
pub mod RoundTrip
use Prim.Native.String
use lclq.Common.{
  ℕ, ◌*◌, ◌/◌, ◌%◌, String, Bool, List, [], ◌∷◌, map, Option, none, some, str_eq, if◌then◌else◌,
  unwrap_or,
}
use lclq.Common.Bytes.{as_bytes}
use lclq.Common.Chars.{is_char}
use lclq.Common.HashMap.{HashMap}
use lclq.Common.Split.{split_colon}
use lclq.Common.Text.{◌<>◌}
use lclq.Error.{Result, ok, err}
use lclq.Common.Split.{push_front}
use lclq.PubSub.Names.{ResourceName, parse}
use lclq.PubSub.Proto
use lclq.PubSub.Proto.{as_u32, Subscription, PubsubMessage, ReceivedMessage}
use lclq.PubSub.Publisher.{backend_id, retention}
use lclq.Storage
use lclq.Types.{
  Message, MessageAttributes, PushConfig, RetryPolicy, DeadLetterPolicy, SubscriptionConfig,
}

-- A duration in seconds, or a default.
abbrev seconds_or : Option ℕ → (default : ℕ) → ℕ
seconds_or none default = default
seconds_or (some seconds) default = as_u32 seconds

retry_policy_of : Option Proto.RetryPolicy → Option RetryPolicy
retry_policy_of none = none
retry_policy_of (some rp) = some (record {
  min_backoff_seconds = seconds_or rp.minimum_backoff 10;
  max_backoff_seconds = seconds_or rp.maximum_backoff 600;
  max_attempts = 5;
})

push_config_of : Option String → Option Proto.RetryPolicy → Option PushConfig
unfolding retry_policy_of
push_config_of none policy = none
push_config_of (some url) policy =
    some
      (record { endpoint = url; retry_policy = retry_policy_of policy; timeout_seconds = some 30 })

dead_letter_policy_of : Option Proto.DeadLetterPolicy → Option DeadLetterPolicy
dead_letter_policy_of none = none
dead_letter_policy_of (some dlp) = some (record {
  dead_letter_topic = dlp.dead_letter_topic;
  max_delivery_attempts = as_u32 dlp.max_delivery_attempts;
})

config_of : Subscription → (sub_id topic_id : String) → SubscriptionConfig
unfolding push_config_of dead_letter_policy_of
config_of subscription sub_id topic_id_ = record {
  id = sub_id;
  name = subscription.name;
  topic_id = topic_id_;
  ack_deadline_seconds = as_u32 subscription.ack_deadline_seconds;
  message_retention_duration = retention subscription.message_retention_duration;
  enable_message_ordering = subscription.enable_message_ordering;
  filter = if str_eq subscription.filter "" then none else some subscription.filter;
  dead_letter_policy = dead_letter_policy_of subscription.dead_letter_policy;
  push_config = push_config_of subscription.push_endpoint subscription.retry_policy;
}

convert : Subscription → Result ResourceName → Result ResourceName → Result SubscriptionConfig
unfolding config_of
convert subscription (err e) _ = err e
convert subscription (ok name) (err e) = err e
convert subscription (ok name) (ok topic_name) =
    ok (config_of subscription (backend_id name) (backend_id topic_name))

unfoldable pub subscription_to_config : Subscription → Result SubscriptionConfig
unfolding convert
subscription_to_config subscription =
    convert subscription (parse subscription.name) (parse subscription.topic)

-- The two parts of an ID, or a default project and the ID whole.
abbrev two_parts : List String → (default_project whole : String) → String × String
two_parts (a ∷ b ∷ []) default_project whole = (a, b)
two_parts _ default_project whole = (default_project, whole)

unfoldable pub topic_of_config : SubscriptionConfig → String
topic_of_config config =
    let (project, _) = two_parts (split_colon config.id) "default" config.id in
    let (topic_project, topic_name) =
      two_parts (split_colon config.topic_id) project config.topic_id in
    "projects/" <> topic_project <> "/topics/" <> topic_name

endpoint_of : Option PushConfig → Option String
endpoint_of none = none
endpoint_of (some pc) = some pc.endpoint

proto_retry : Option RetryPolicy → Option Proto.RetryPolicy
proto_retry none = none
proto_retry (some rp) = some (record {
  minimum_backoff = some rp.min_backoff_seconds;
  maximum_backoff = some rp.max_backoff_seconds;
})

proto_retry_of : Option PushConfig → Option Proto.RetryPolicy
unfolding proto_retry
proto_retry_of none = none
proto_retry_of (some pc) = proto_retry pc.retry_policy

proto_dead_letter : Option DeadLetterPolicy → Option Proto.DeadLetterPolicy
proto_dead_letter none = none
proto_dead_letter (some dlp) = some (record {
  dead_letter_topic = dlp.dead_letter_topic;
  max_delivery_attempts = dlp.max_delivery_attempts;
})

unfoldable pub config_to_subscription : SubscriptionConfig → Subscription
unfolding endpoint_of proto_retry_of proto_dead_letter
config_to_subscription config = record {
  name = config.name;
  topic = topic_of_config config;
  push_endpoint = endpoint_of config.push_config;
  ack_deadline_seconds = config.ack_deadline_seconds;
  message_retention_duration = some config.message_retention_duration;
  enable_message_ordering = config.enable_message_ordering;
  filter = unwrap_or config.filter "";
  dead_letter_policy = proto_dead_letter config.dead_letter_policy;
  retry_policy = proto_retry_of config.push_config;
}

module _ (decode_base64 : String → Option (List ℕ)) where
  -- A body that is no base64 is delivered as its bytes.
  unfoldable pub data_of : (body : String) → List ℕ
  data_of body = unwrap_or (decode_base64 body) (as_bytes body)

  -- `Pull` leaves out an attribute without a text, the stream gives it as an empty one.
  pulled_attributes : MessageAttributes → HashMap String
  pulled_attributes [] = []
  pulled_attributes ((key, attribute) ∷ rest) = elim attribute.string_value [
    | none ↦ pulled_attributes rest
    | some text ↦ (key, text) ∷ pulled_attributes rest
  ]

  streamed_attributes : MessageAttributes → HashMap String
  streamed_attributes [] = []
  streamed_attributes ((key, attribute) ∷ rest) =
      (key, unwrap_or attribute.string_value "") ∷ streamed_attributes rest

  converted : HashMap String → Storage.ReceivedMessage → ReceivedMessage
  converted attributes_ received =
      let m = received.message in
      record {
        ack_id = received.receipt_handle;
        message = record {
          data_ = data_of m.body;
          attributes = attributes_;
          message_id = m.id;
          publish_time = some (m.sent_timestamp / 1000000000, m.sent_timestamp % 1000000000);
          ordering_key = unwrap_or m.message_group_id "";
        };
        delivery_attempt = m.receive_count;
      }

  unfoldable pub pulled : Storage.ReceivedMessage → ReceivedMessage
  unfolding pulled_attributes converted
  pulled received = converted (pulled_attributes received.message.attributes) received

  unfoldable pub streamed : Storage.ReceivedMessage → ReceivedMessage
  unfolding streamed_attributes converted
  streamed received = converted (streamed_attributes received.message.attributes) received
