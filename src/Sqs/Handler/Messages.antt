-- ===== src/Sqs/Handler/Messages.antt =====
-- sqs/handler.rs: sending, receiving and deleting a message and changing its visibility.
pub mod Kept
use lclq.Common.{
  ℕ, ◌/◌, min, String, List, [], ◌∷◌, map, Option, none, some, leb, if◌then◌else◌, unwrap_or,
}
use lclq.Common.Decimal.{parse_unsigned}
use lclq.Common.HashMap.{HashMap}
use lclq.Common.Text.{to_string}
use lclq.Error.{Result, ok, err}
use lclq.Error.Display.{error_text}
use lclq.Sqs.Digest.{
  SqsMessageAttributeValue, SqsMessageAttributes, calculate_md5_of_body,
  calculate_md5_of_attributes,
}
use lclq.Sqs.Handler.{Outside, Readings, parsed, refuse, required, queue_of_url, with_queue}
use lclq.Sqs.Request.{SqsRequest, get_param, parse_message_attributes, insert_all}
use lclq.Sqs.Request.Batch.{max_u32}
use lclq.Sqs.Response.{
  build_send_message_response, build_delete_message_response,
  build_change_message_visibility_response,
}
use lclq.Sqs.Response.Lists.{
  MessageAttributeInfo, ReceivedMessageInfo, build_receive_message_response,
}
use lclq.Sqs.Types.{internal_error, invalid_parameter_value, receipt_handle_is_invalid}
use lclq.Storage.{StorageBackend, ReceivedMessage}
use lclq.Types.{DateTime, Message, MessageAttributeValue, MessageAttributes, ReceiveOptions}

-- `timestamp_millis` of a time in nanoseconds.
abbrev timestamp_millis : DateTime → ℕ
timestamp_millis t = t / 1000000

module _ (outside : Outside) where
  decoded : Option String → Option (List ℕ)
  decoded none = none
  decoded (some b64) = outside.decode_base64 b64

  stored_attribute : String × SqsMessageAttributeValue → String × MessageAttributeValue
  unfolding decoded
  stored_attribute (key, attribute) = (
    key,
    record {
      data_type = attribute.data_type;
      string_value = attribute.string_value;
      binary_value = decoded attribute.binary_value;
    },
  )

  unfoldable pub stored_attributes : SqsMessageAttributes → MessageAttributes
  unfolding stored_attribute
  stored_attributes attributes = insert_all (map stored_attribute attributes) []

  -- `MD5OfMessageAttributes` is given where there are attributes.
  attributes_digest : SqsMessageAttributes → Option String
  attributes_digest [] = none
  attributes_digest (e ∷ attributes) =
      some (calculate_md5_of_attributes outside.md5_hex outside.decode_base64 (e ∷ attributes))

attribute_info : String × MessageAttributeValue → String × MessageAttributeInfo
attribute_info (key, attribute) =
    (key, record { data_type = attribute.data_type; string_value = attribute.string_value })

module _ {State : Type 0} (backend : StorageBackend State) (outside : Outside)
    (readings : Readings) where
  requested_message : SqsRequest → (queue_name message_body : String) → Message
  requested_message request queue_name message_body = record {
    id = readings.new_id 0;
    body = message_body;
    attributes = stored_attributes outside (parse_message_attributes request);
    queue_id = queue_name;
    sent_timestamp = readings.now 0;
    receive_count = 0;
    message_group_id = get_param request "MessageGroupId";
    deduplication_id = get_param request "MessageDeduplicationId";
    sequence_number = none;
    delay_seconds = parsed (get_param request "DelaySeconds");
  }

  sent : SqsRequest → Result Message × State → String × State
  unfolding attributes_digest
  sent request (ok sent_message, s) = (
    build_send_message_response sent_message.id
        (calculate_md5_of_body outside.md5_hex sent_message.body)
        (attributes_digest outside (parse_message_attributes request)) readings.request_id,
    s,
  )
  sent request (err e, s) = refuse internal_error (error_text e) readings.request_id s

  unfoldable pub handle_send_message : SqsRequest → State → String × State
  unfolding requested_message sent
  handle_send_message request s = required request readings.request_id "QueueUrl" s λ queue_url.
      required request readings.request_id "MessageBody" s λ message_body.
        queue_of_url readings.request_id queue_url s λ queue_name.
          sent request
            (backend.send_message s queue_name (requested_message request queue_name message_body))

  unfoldable pub receive_options : SqsRequest → ReceiveOptions
  receive_options request = record {
    max_messages = min (unwrap_or (parsed (get_param request "MaxNumberOfMessages")) 1) 10;
    visibility_timeout = parsed (get_param request "VisibilityTimeout");
    wait_time_seconds = unwrap_or (parsed (get_param request "WaitTimeSeconds")) 0;
    attribute_names = [];
    message_attribute_names = [];
  }

  message_info : ReceivedMessage → ReceivedMessageInfo
  unfolding attribute_info
  message_info received =
      let m = received.message in
      record {
        message_id = m.id;
        receipt_handle = received.receipt_handle;
        md5_of_body = calculate_md5_of_body outside.md5_hex m.body;
        body = m.body;
        attributes =
            ("SenderId", "AIDAIT2UOQQY3AUEKVGXU")
            ∷ ("SentTimestamp", to_string (timestamp_millis m.sent_timestamp))
            ∷ ("ApproximateReceiveCount", to_string m.receive_count)
            ∷ (
              "ApproximateFirstReceiveTimestamp",
              to_string (timestamp_millis readings.answered_at),
            )
            ∷ [];
        message_attributes = map attribute_info m.attributes;
      }

  received_answer : Result (List ReceivedMessage) × State → String × State
  unfolding message_info
  received_answer (ok messages, s) =
      (build_receive_message_response (map message_info messages) readings.request_id, s)
  received_answer (err e, s) = refuse internal_error (error_text e) readings.request_id s

  unfoldable pub handle_receive_message : SqsRequest → State → String × State
  unfolding received_answer
  handle_receive_message request s = with_queue request readings.request_id s λ queue_name.
      received_answer (backend.receive_messages s queue_name (receive_options request))

  -- The answers of deletions and of changes of visibility.
  done : (response : String) → Result (Unit {0}) × State → String × State
  done response (ok _, s) = (response, s)
  done response (err _, s) =
      refuse receipt_handle_is_invalid "Receipt handle is invalid" readings.request_id s

  unfoldable pub handle_delete_message : SqsRequest → State → String × State
  unfolding done
  handle_delete_message request s = required request readings.request_id "QueueUrl" s λ queue_url.
      required request readings.request_id "ReceiptHandle" s λ receipt_handle.
        queue_of_url readings.request_id queue_url s λ queue_name.
          done (build_delete_message_response readings.request_id)
            (backend.delete_message s queue_name receipt_handle)

  -- `Ok(timeout) if timeout <= limit => timeout`.
  unfoldable pub at_most : (limit : ℕ) → Option ℕ → Option ℕ
  at_most limit none = none
  at_most limit (some n) = if leb n limit then some n else none

  unfoldable pub on_timeout : State → (ℕ → String × State) → Option ℕ → String × State
  on_timeout s next none =
      refuse invalid_parameter_value "VisibilityTimeout must be between 0 and 43200 seconds"
        readings.request_id s
  on_timeout s next (some seconds) = next seconds

  unfoldable pub handle_change_message_visibility : SqsRequest → State → String × State
  unfolding done on_timeout at_most
  handle_change_message_visibility request s =
      required request readings.request_id "QueueUrl" s λ queue_url.
        required request readings.request_id "ReceiptHandle" s λ receipt_handle.
          required request readings.request_id "VisibilityTimeout" s λ timeout.
            on_timeout s
              (λ visibility_timeout. queue_of_url readings.request_id queue_url s λ queue_name.
                done (build_change_message_visibility_response readings.request_id)
                  (backend.change_visibility s queue_name receipt_handle visibility_timeout))
              (at_most 43200 (parse_unsigned max_u32 timeout))
