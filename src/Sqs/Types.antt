-- ===== src/Sqs/Types.antt =====
-- sqs/types.rs: the actions, the attribute names and the error codes with their texts.
pub mod RoundTrip
use lclq.Common.{
  ◌≡◌, refl, ◌⊎◌, inl, inr, ℕ, String, Bool, List, [], ◌∷◌, ◌++◌, Option, none, some, str_eq,
  if◌then◌else◌,
}
use lclq.Common.Text.{◌<>◌}
use lclq.Common.HashMap.{HashMap}

-- A `Result` whose error is a text.
pub data Attempt {ℓ} (A : Type ℓ) : Type ℓ where
  success : A → Attempt A
  failure : String → Attempt A

pub Attempt-cases {ℓ} :
    {A : Type ℓ} (a : Attempt A)
    → ((x : A) × (a ≡ success x)) ⊎ ((message : String) × (a ≡ failure message))
Attempt-cases (success x) = inl (x, refl)
Attempt-cases (failure message) = inr (message, refl)

pub data SqsAction : Type 0 where
  create_queue delete_queue get_queue_url get_queue_attributes set_queue_attributes list_queues
        purge_queue tag_queue untag_queue list_queue_tags send_message send_message_batch
        receive_message delete_message delete_message_batch change_message_visibility
        change_message_visibility_batch :
      SqsAction

unfoldable pub action_from_str : String → Attempt SqsAction
action_from_str s =
    if str_eq s "CreateQueue"
    then success create_queue
    else if str_eq s "DeleteQueue"
    then success delete_queue
    else if str_eq s "GetQueueUrl"
    then success get_queue_url
    else if str_eq s "GetQueueAttributes"
    then success get_queue_attributes
    else if str_eq s "SetQueueAttributes"
    then success set_queue_attributes
    else if str_eq s "ListQueues"
    then success list_queues
    else if str_eq s "PurgeQueue"
    then success purge_queue
    else if str_eq s "TagQueue"
    then success tag_queue
    else if str_eq s "UntagQueue"
    then success untag_queue
    else if str_eq s "ListQueueTags"
    then success list_queue_tags
    else if str_eq s "SendMessage"
    then success send_message
    else if str_eq s "SendMessageBatch"
    then success send_message_batch
    else if str_eq s "ReceiveMessage"
    then success receive_message
    else if str_eq s "DeleteMessage"
    then success delete_message
    else if str_eq s "DeleteMessageBatch"
    then success delete_message_batch
    else if str_eq s "ChangeMessageVisibility"
    then success change_message_visibility
    else if str_eq s "ChangeMessageVisibilityBatch"
    then success change_message_visibility_batch
    else failure ("Unknown SQS action: " <> s)

unfoldable pub action_as_str : SqsAction → String
action_as_str create_queue = "CreateQueue"
action_as_str delete_queue = "DeleteQueue"
action_as_str get_queue_url = "GetQueueUrl"
action_as_str get_queue_attributes = "GetQueueAttributes"
action_as_str set_queue_attributes = "SetQueueAttributes"
action_as_str list_queues = "ListQueues"
action_as_str purge_queue = "PurgeQueue"
action_as_str tag_queue = "TagQueue"
action_as_str untag_queue = "UntagQueue"
action_as_str list_queue_tags = "ListQueueTags"
action_as_str send_message = "SendMessage"
action_as_str send_message_batch = "SendMessageBatch"
action_as_str receive_message = "ReceiveMessage"
action_as_str delete_message = "DeleteMessage"
action_as_str delete_message_batch = "DeleteMessageBatch"
action_as_str change_message_visibility = "ChangeMessageVisibility"
action_as_str change_message_visibility_batch = "ChangeMessageVisibilityBatch"

pub data QueueAttribute : Type 0 where
  all approximate_number_of_messages approximate_number_of_messages_not_visible
        approximate_number_of_messages_delayed created_timestamp last_modified_timestamp
        visibility_timeout maximum_message_size message_retention_period delay_seconds
        redrive_policy redrive_allow_policy fifo_queue content_based_deduplication queue_arn :
      QueueAttribute

unfoldable pub attribute_from_str : String → Attempt QueueAttribute
attribute_from_str s =
    if str_eq s "All"
    then success all
    else if str_eq s "ApproximateNumberOfMessages"
    then success approximate_number_of_messages
    else if str_eq s "ApproximateNumberOfMessagesNotVisible"
    then success approximate_number_of_messages_not_visible
    else if str_eq s "ApproximateNumberOfMessagesDelayed"
    then success approximate_number_of_messages_delayed
    else if str_eq s "CreatedTimestamp"
    then success created_timestamp
    else if str_eq s "LastModifiedTimestamp"
    then success last_modified_timestamp
    else if str_eq s "VisibilityTimeout"
    then success visibility_timeout
    else if str_eq s "MaximumMessageSize"
    then success maximum_message_size
    else if str_eq s "MessageRetentionPeriod"
    then success message_retention_period
    else if str_eq s "DelaySeconds"
    then success delay_seconds
    else if str_eq s "RedrivePolicy"
    then success redrive_policy
    else if str_eq s "RedriveAllowPolicy"
    then success redrive_allow_policy
    else if str_eq s "FifoQueue"
    then success fifo_queue
    else if str_eq s "ContentBasedDeduplication"
    then success content_based_deduplication
    else if str_eq s "QueueArn"
    then success queue_arn
    else failure ("Unknown queue attribute: " <> s)

unfoldable pub attribute_as_str : QueueAttribute → String
attribute_as_str all = "All"
attribute_as_str approximate_number_of_messages = "ApproximateNumberOfMessages"
attribute_as_str approximate_number_of_messages_not_visible =
    "ApproximateNumberOfMessagesNotVisible"
attribute_as_str approximate_number_of_messages_delayed = "ApproximateNumberOfMessagesDelayed"
attribute_as_str created_timestamp = "CreatedTimestamp"
attribute_as_str last_modified_timestamp = "LastModifiedTimestamp"
attribute_as_str visibility_timeout = "VisibilityTimeout"
attribute_as_str maximum_message_size = "MaximumMessageSize"
attribute_as_str message_retention_period = "MessageRetentionPeriod"
attribute_as_str delay_seconds = "DelaySeconds"
attribute_as_str redrive_policy = "RedrivePolicy"
attribute_as_str redrive_allow_policy = "RedriveAllowPolicy"
attribute_as_str fifo_queue = "FifoQueue"
attribute_as_str content_based_deduplication = "ContentBasedDeduplication"
attribute_as_str queue_arn = "QueueArn"

pub data SqsErrorCode : Type 0 where
  queue_does_not_exist queue_already_exists invalid_parameter_value missing_parameter
        invalid_attribute_name receipt_handle_is_invalid batch_request_too_long internal_error :
      SqsErrorCode

unfoldable pub code_as_str : SqsErrorCode → String
code_as_str queue_does_not_exist = "AWS.SimpleQueueService.NonExistentQueue"
code_as_str queue_already_exists = "QueueAlreadyExists"
code_as_str invalid_parameter_value = "InvalidParameterValue"
code_as_str missing_parameter = "MissingParameter"
code_as_str invalid_attribute_name = "InvalidAttributeName"
code_as_str receipt_handle_is_invalid = "ReceiptHandleIsInvalid"
code_as_str batch_request_too_long = "AWS.SimpleQueueService.BatchRequestTooLong"
code_as_str internal_error = "InternalError"
