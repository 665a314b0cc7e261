-- ===== src/Sqs/Handler/JsonAnswer/Choice.antt =====
-- sqs/handler.rs: `xml_to_json_response`: the answers of batches, and the tests on the text of the
-- XML response that choose an answer. The second copy of the code for `SendMessageBatch`, behind
-- the same test, is never reached and is left out.
use lclq.Common.{String, ◌||◌, ◌&&◌, Option, none, some, str_eq, if◌then◌else◌}
use lclq.Common.Replace.{contains}
use lclq.Sqs.Handler.JsonAnswer.{
  ◌>>=◌, extract, copy, put, pieces, values_of, single, messages_answer, urls_answer,
  attributes_answer,
}
use lclq.Sqs.Json.{
  SerdeJson, Value, Values, Members, bool, string, array, object, no_values, no_members,
}

abbrev Fields : Type 0
Fields = Members

sent_entry : (xml : String) → Option Value
sent_entry xml =
    copy "Id" xml no_members >>= copy "MessageId" xml >>= copy "MD5OfMessageBody" xml >>= λ fields.
    some (object fields)

put_fault : Option String → Members → Members
put_fault none fields = fields
put_fault (some text) fields = put "SenderFault" (bool (str_eq text "true")) fields

error_entry : (xml : String) → Option Value
unfolding put_fault
error_entry xml = copy "Id" xml no_members >>= copy "Code" xml >>= copy "Message" xml >>= λ fields.
    extract "SenderFault" xml >>= λ fault. some (object (put_fault fault fields))

id_entry : (xml : String) → Option Value
id_entry xml = copy "Id" xml no_members >>= λ fields. some (object fields)

failures : (xml : String) → Option Values
unfolding error_entry
failures xml = values_of error_entry (pieces "BatchResultErrorEntry" xml)

put_some : (key : String) → Values → Members → Members
put_some key no_values fields = fields
put_some key vs fields = put key (array vs) fields

sent_batch_answer : (xml : String) → Option Value
unfolding sent_entry failures put_some
sent_batch_answer xml =
    values_of sent_entry (pieces "SendMessageBatchResultEntry" xml) >>= λ successful.
    failures xml >>= λ failed.
    some (object (put_some "Failed" failed (put_some "Successful" successful no_members)))

ids_batch_answer : (xml : String) → Option Value
unfolding id_entry failures
ids_batch_answer xml =
    let success_tag =
      if contains "DeleteMessageBatch" xml
      then "DeleteMessageBatchResultEntry"
      else "ChangeMessageVisibilityBatchResultEntry" in
    values_of id_entry (pieces success_tag xml) >>= λ successful. failures xml >>= λ failed.
    some (object (put "Failed" (array failed) (put "Successful" (array successful) no_members)))

message_answer : Option String → (xml : String) → Option Value
message_answer none xml = some (object no_members)
message_answer (some message_id) xml =
    copy "MD5OfMessageBody" xml (put "MessageId" (string message_id) no_members) >>= λ fields.
    some (object fields)

simple_answer : Option String → (xml : String) → Option Value
unfolding message_answer
simple_answer (some queue_url) xml = some (single "QueueUrl" (string queue_url))
simple_answer none xml = extract "MessageId" xml >>= λ message_id. message_answer message_id xml

unfoldable pub json_answer : (xml : String) → Option Value
unfolding sent_batch_answer ids_batch_answer simple_answer
json_answer xml =
    if contains "DeleteMessageResponse" xml || contains "PurgeQueueResponse" xml
    then some (object no_members)
    else if contains "<Message>" xml && contains "ReceiveMessageResponse" xml
    then messages_answer xml
    else if contains "SendMessageBatchResponse" xml || contains "SendMessageBatchResult" xml
    then sent_batch_answer xml
    else if contains "ListQueuesResponse" xml || contains "ListQueuesResult" xml
    then urls_answer xml
    else if contains "GetQueueAttributesResponse" xml || contains "GetQueueAttributesResult" xml
    then attributes_answer xml
    else if contains "DeleteMessageBatchResponse" xml
        || contains "DeleteMessageBatchResult" xml
        || contains "ChangeMessageVisibilityBatchResponse" xml
        || contains "ChangeMessageVisibilityBatchResult" xml
    then ids_batch_answer xml
    else extract "QueueUrl" xml >>= λ queue_url. simple_answer queue_url xml

unfoldable pub xml_to_json_response : SerdeJson → (xml : String) → Option String
xml_to_json_response serde xml = json_answer xml >>= λ v. some (serde.to_string v)
