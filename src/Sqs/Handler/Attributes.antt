-- ===== src/Sqs/Handler/Attributes.antt =====
-- sqs/handler.rs: `GetQueueAttributes` and the rows that an attribute name asks for.
pub mod Kept
use lclq.Common.{
  ℕ, ◌/◌, String, Bool, true, false, List, [], ◌∷◌, ◌++◌, map, Option, none, some, if◌then◌else◌,
}
use lclq.Common.Text.{◌<>◌, to_string}
use lclq.Error.{Result, ok, err}
use lclq.Error.Display.{error_text}
use lclq.Sqs.Handler.{Outside, Readings, refuse, with_queue, on_config}
use lclq.Sqs.Request.{SqsRequest}
use lclq.Sqs.Request.Batch.{parse_attribute_names}
use lclq.Sqs.Response.Lists.{build_get_queue_attributes_response}
use lclq.Sqs.Types.{
  Attempt, success, failure, QueueAttribute, all, approximate_number_of_messages,
  approximate_number_of_messages_not_visible, approximate_number_of_messages_delayed,
  created_timestamp, last_modified_timestamp, visibility_timeout, maximum_message_size,
  message_retention_period, delay_seconds, redrive_policy, redrive_allow_policy, fifo_queue,
  content_based_deduplication, queue_arn, attribute_from_str, attribute_as_str, internal_error,
}
use lclq.Storage.{StorageBackend}
use lclq.Types.{
  DateTime, DlqConfig, QueueConfig, QueueStats, QueueType, sqs_standard, sqs_fifo, pub_sub_topic,
  RedrivePermission, allow_all, deny_all, by_queue, RedriveAllowPolicy,
}

abbrev Rows : Type 0
Rows = List (String × String)

bool_text : Bool → String
bool_text true = "true"
bool_text false = "false"

abbrev is_fifo : QueueType → Bool
is_fifo sqs_fifo = true
is_fifo _ = false

abbrev pub arn : (queue_name : String) → String
arn queue_name = "arn:aws:sqs:us-east-1:000000000000:" <> queue_name

unfoldable pub redrive_policy_text : DlqConfig → String
redrive_policy_text dlq =
    "{\"deadLetterTargetArn\":\""
    <> arn dlq.target_queue_id
    <> "\",\"maxReceiveCount\":"
    <> to_string dlq.max_receive_count
    <> "}"

unfoldable pub redrive_policy_rows : Option DlqConfig → Rows
redrive_policy_rows none = []
redrive_policy_rows (some dlq) = ("RedrivePolicy", redrive_policy_text dlq) ∷ []

-- The ARNs in quotes, joined by commas.
quoted_arns : List String → String
quoted_arns [] = ""
quoted_arns (a ∷ []) = "\"" <> a <> "\""
quoted_arns (a ∷ b ∷ rest) = "\"" <> a <> "\"," <> quoted_arns (b ∷ rest)

permission_text : RedrivePermission → String
unfolding quoted_arns
permission_text allow_all = "{\"redrivePermission\":\"allowAll\"}"
permission_text deny_all = "{\"redrivePermission\":\"denyAll\"}"
permission_text (by_queue arns) =
    "{\"redrivePermission\":\"byQueue\",\"sourceQueueArns\":[" <> quoted_arns arns <> "]}"

allow_policy_rows : Option RedriveAllowPolicy → Rows
unfolding permission_text
allow_policy_rows none = []
allow_policy_rows (some policy) = ("RedriveAllowPolicy", permission_text policy.permission) ∷ []

module _ (now : DateTime) (config : QueueConfig) (stats : QueueStats) where
  -- The rows of an attribute other than `All`, which stands for several of these.
  unfoldable pub one_attribute : QueueAttribute → Rows
  unfolding redrive_policy_rows allow_policy_rows bool_text
  one_attribute all = []
  one_attribute visibility_timeout = ("VisibilityTimeout", to_string config.visibility_timeout) ∷ []
  one_attribute delay_seconds = ("DelaySeconds", to_string config.delay_seconds) ∷ []
  one_attribute maximum_message_size =
      ("MaximumMessageSize", to_string config.max_message_size) ∷ []
  one_attribute message_retention_period =
      ("MessageRetentionPeriod", to_string config.message_retention_period) ∷ []
  one_attribute approximate_number_of_messages =
      ("ApproximateNumberOfMessages", to_string stats.available_messages) ∷ []
  one_attribute approximate_number_of_messages_not_visible =
      ("ApproximateNumberOfMessagesNotVisible", to_string stats.in_flight_messages) ∷ []
  one_attribute approximate_number_of_messages_delayed =
      ("ApproximateNumberOfMessagesDelayed", "0") ∷ []
  one_attribute queue_arn = ("QueueArn", arn config.name) ∷ []
  one_attribute fifo_queue = ("FifoQueue", bool_text (is_fifo config.queue_type)) ∷ []
  one_attribute content_based_deduplication =
      ("ContentBasedDeduplication", bool_text config.content_based_deduplication) ∷ []
  one_attribute redrive_policy = redrive_policy_rows config.dlq_config
  one_attribute redrive_allow_policy = allow_policy_rows config.redrive_allow_policy
  one_attribute created_timestamp =
      (attribute_as_str created_timestamp, to_string (now / 1000000000)) ∷ []
  one_attribute last_modified_timestamp =
      (attribute_as_str last_modified_timestamp, to_string (now / 1000000000)) ∷ []

  rows_of : List QueueAttribute → Rows
  unfolding one_attribute
  rows_of [] = []
  rows_of (a ∷ as_) = one_attribute a ++ rows_of as_

  fifo_attributes : QueueType → List QueueAttribute
  fifo_attributes sqs_fifo = fifo_queue ∷ content_based_deduplication ∷ []
  fifo_attributes _ = []

  -- What `All` adds: policies that are not set have no rows, so the tests for them are not needed.
  all_attributes : List QueueAttribute
  unfolding fifo_attributes
  all_attributes =
      visibility_timeout
      ∷ delay_seconds
      ∷ maximum_message_size
      ∷ message_retention_period
      ∷ approximate_number_of_messages
      ∷ approximate_number_of_messages_not_visible
      ∷ queue_arn
      ∷ (fifo_attributes config.queue_type ++ (redrive_policy ∷ redrive_allow_policy ∷ []))

  unfoldable pub add_queue_attribute : Rows → QueueAttribute → Rows
  unfolding rows_of all_attributes one_attribute
  add_queue_attribute attributes all = attributes ++ rows_of all_attributes
  add_queue_attribute attributes attr = attributes ++ one_attribute attr

  unfoldable pub add_named : Attempt QueueAttribute → Rows → Rows
  add_named (success attr) attributes = add_queue_attribute attributes attr
  add_named (failure _) attributes = attributes

  unfoldable pub add_attributes : (names : List String) → Rows → Rows
  unfolding add_named
  add_attributes [] attributes = attributes
  add_attributes (name ∷ names) attributes =
      add_attributes names (add_named (attribute_from_str name) attributes)

-- No name at all asks for all.
unfoldable pub default_all : List String → List String
default_all [] = "All" ∷ []
default_all (name ∷ names) = name ∷ names

module _ {State : Type 0} (backend : StorageBackend State) (outside : Outside)
    (readings : Readings) where
  with_stats : SqsRequest → State → QueueConfig → Result QueueStats → String × State
  with_stats request s config (err e) = refuse internal_error (error_text e) readings.request_id s
  with_stats request s config (ok stats) = (
    build_get_queue_attributes_response
        (add_attributes readings.answered_at config stats
          (default_all (parse_attribute_names outside.serde request)) [])
        readings.request_id,
    s,
  )

  unfoldable pub handle_get_queue_attributes : SqsRequest → State → String × State
  unfolding with_stats
  handle_get_queue_attributes request s = with_queue request readings.request_id s λ queue_name.
      on_config readings.request_id s
        (λ config. with_stats request s config (backend.get_stats s queue_name))
        (backend.get_queue s queue_name)
