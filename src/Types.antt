-- ===== src/Types.antt =====
-- types/mod.rs: messages, queues and subscriptions. A time (`DateTime<Utc>`) is a count of
-- nanoseconds, a `MessageId` the text that it wraps, and a body or a value of bytes is as the
-- source keeps it: text, or a list of bytes.
use lclq.Common.{ℕ, ◌*◌, String, Bool, List, [], Option, none}
use lclq.Common.HashMap.{HashMap}

abbrev pub MessageId : Type 0
MessageId = String

abbrev pub DateTime : Type 0
DateTime = ℕ

-- `Duration::seconds` and `Duration::minutes`.
abbrev pub seconds : ℕ → ℕ
seconds n = n * 1000000000

abbrev pub minutes : ℕ → ℕ
minutes n = seconds (n * 60)

pub record MessageAttributeValue : Type 0 where
  pub data_type : String
  pub string_value : Option String
  pub binary_value : Option (List ℕ)

abbrev pub MessageAttributes : Type 0
MessageAttributes = HashMap MessageAttributeValue

pub record Message : Type 0 where
  pub id : MessageId
  pub body : String
  pub attributes : MessageAttributes
  pub queue_id : String
  pub sent_timestamp : DateTime
  pub receive_count : ℕ
  pub message_group_id : Option String
  pub deduplication_id : Option String
  pub sequence_number : Option ℕ
  pub delay_seconds : Option ℕ

pub data QueueType : Type 0 where
  sqs_standard sqs_fifo pub_sub_topic : QueueType

pub record DlqConfig : Type 0 where
  pub target_queue_id : String
  pub max_receive_count : ℕ

pub data RedrivePermission : Type 0 where
  allow_all deny_all : RedrivePermission
  by_queue : (source_queue_arns : List String) → RedrivePermission

pub record RedriveAllowPolicy : Type 0 where
  pub permission : RedrivePermission

pub record QueueConfig : Type 0 where
  pub id : String
  pub name : String
  pub queue_type : QueueType
  pub visibility_timeout : ℕ
  pub message_retention_period : ℕ
  pub max_message_size : ℕ
  pub delay_seconds : ℕ
  pub dlq_config : Option DlqConfig
  pub content_based_deduplication : Bool
  pub tags : HashMap String
  pub redrive_allow_policy : Option RedriveAllowPolicy

pub record ReceiveOptions : Type 0 where
  pub max_messages : ℕ
  pub visibility_timeout : Option ℕ
  pub wait_time_seconds : ℕ
  pub attribute_names : List String
  pub message_attribute_names : List String

-- `ReceiveOptions::default`.
abbrev pub default_receive_options : ReceiveOptions
default_receive_options = record {
  max_messages = 1;
  visibility_timeout = none;
  wait_time_seconds = 0;
  attribute_names = [];
  message_attribute_names = [];
}

pub record QueueStats : Type 0 where
  pub available_messages : ℕ
  pub in_flight_messages : ℕ
  pub dlq_messages : ℕ
  pub oldest_message_timestamp : Option DateTime

pub record DeadLetterPolicy : Type 0 where
  pub dead_letter_topic : String
  pub max_delivery_attempts : ℕ

pub record RetryPolicy : Type 0 where
  pub min_backoff_seconds : ℕ
  pub max_backoff_seconds : ℕ
  pub max_attempts : ℕ

-- `RetryPolicy::default`.
abbrev pub default_retry_policy : RetryPolicy
default_retry_policy = record {
  min_backoff_seconds = 10;
  max_backoff_seconds = 600;
  max_attempts = 5;
}

pub record PushConfig : Type 0 where
  pub endpoint : String
  pub retry_policy : Option RetryPolicy
  pub timeout_seconds : Option ℕ

pub record SubscriptionConfig : Type 0 where
  pub id : String
  pub name : String
  pub topic_id : String
  pub ack_deadline_seconds : ℕ
  pub message_retention_duration : ℕ
  pub enable_message_ordering : Bool
  pub filter : Option String
  pub dead_letter_policy : Option DeadLetterPolicy
  pub push_config : Option PushConfig
