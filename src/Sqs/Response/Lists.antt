-- ===== src/Sqs/Response/Lists.antt =====
-- sqs/response.rs: the responses that list entries: batches, received messages, queues and
-- attributes.
use lclq.Common.{String, Bool, true, false, List, Option}
use lclq.Common.Text.{◌<>◌}
use lclq.Sqs.Escape.{escape_xml}
use lclq.Sqs.Response.{each, line, optional_line, opened, closed}

pub record BatchResultEntry : Type 0 where
  pub id : String
  pub message_id : String
  pub md5_of_body : String
  pub md5_of_attrs : Option String

pub record BatchErrorEntry : Type 0 where
  pub id : String
  pub code : String
  pub message : String
  pub sender_fault : Bool

abbrev pub bool_text : Bool → String
bool_text true = "true"
bool_text false = "false"

result_entry : BatchResultEntry → String
result_entry entry =
    "    <SendMessageBatchResultEntry>\n"
    <> line "      " "Id" (escape_xml entry.id)
    <> line "      " "MessageId" (escape_xml entry.message_id)
    <> line "      " "MD5OfMessageBody" (escape_xml entry.md5_of_body)
    <> optional_line "      " "MD5OfMessageAttributes" entry.md5_of_attrs
    <> "    </SendMessageBatchResultEntry>\n"

error_entry : BatchErrorEntry → String
error_entry entry =
    "    <BatchResultErrorEntry>\n"
    <> line "      " "Id" (escape_xml entry.id)
    <> line "      " "Code" (escape_xml entry.code)
    <> line "      " "Message" (escape_xml entry.message)
    <> line "      " "SenderFault" (bool_text entry.sender_fault)
    <> "    </BatchResultErrorEntry>\n"

unfoldable pub build_send_message_batch_response :
    List BatchResultEntry → List BatchErrorEntry → (request_id : String) → String
unfolding result_entry error_entry
build_send_message_batch_response successful failed request_id =
    opened "SendMessageBatch"
    <> each result_entry successful
    <> each error_entry failed
    <> closed "SendMessageBatch" request_id

-- The entry of an ID alone, as deletions and changes of visibility answer it.
id_entry : (name id : String) → String
id_entry name id =
    "    <" <> name <> ">\n" <> line "      " "Id" (escape_xml id) <> "    </" <> name <> ">\n"

unfoldable pub build_delete_message_batch_response :
    (successful : List String) → List BatchErrorEntry → (request_id : String) → String
unfolding id_entry error_entry
build_delete_message_batch_response successful failed request_id =
    opened "DeleteMessageBatch"
    <> each (id_entry "DeleteMessageBatchResultEntry") successful
    <> each error_entry failed
    <> closed "DeleteMessageBatch" request_id

unfoldable pub build_change_visibility_batch_response :
    (successful : List String) → List BatchErrorEntry → (request_id : String) → String
unfolding id_entry error_entry
build_change_visibility_batch_response successful failed request_id =
    opened "ChangeMessageVisibilityBatch"
    <> each (id_entry "ChangeMessageVisibilityBatchResultEntry") successful
    <> each error_entry failed
    <> closed "ChangeMessageVisibilityBatch" request_id

pub record MessageAttributeInfo : Type 0 where
  pub data_type : String
  pub string_value : Option String

pub record ReceivedMessageInfo : Type 0 where
  pub message_id : String
  pub receipt_handle : String
  pub md5_of_body : String
  pub body : String
  pub attributes : List (String × String)
  pub message_attributes : List (String × MessageAttributeInfo)

attribute_entry : String × String → String
attribute_entry (key, value) =
    "      <Attribute>\n"
    <> line "        " "Name" key
    <> line "        " "Value" (escape_xml value)
    <> "      </Attribute>\n"

message_attribute_entry : String × MessageAttributeInfo → String
message_attribute_entry (key, value) =
    "      <MessageAttribute>\n"
    <> line "        " "Name" key
    <> "        <Value>\n"
    <> line "          " "DataType" value.data_type
    <> optional_line "          " "StringValue" value.string_value
    <> "        </Value>\n"
    <> "      </MessageAttribute>\n"

message_entry : ReceivedMessageInfo → String
unfolding attribute_entry message_attribute_entry
message_entry msg =
    "    <Message>\n"
    <> line "      " "MessageId" msg.message_id
    <> line "      " "ReceiptHandle" msg.receipt_handle
    <> line "      " "MD5OfBody" msg.md5_of_body
    <> line "      " "Body" (escape_xml msg.body)
    <> each attribute_entry msg.attributes
    <> each message_attribute_entry msg.message_attributes
    <> "    </Message>\n"

unfoldable pub build_receive_message_response :
    List ReceivedMessageInfo → (request_id : String) → String
unfolding message_entry
build_receive_message_response messages request_id =
    opened "ReceiveMessage" <> each message_entry messages <> closed "ReceiveMessage" request_id

url_entry : String → String
url_entry url = line "    " "QueueUrl" (escape_xml url)

unfoldable pub build_list_queues_response :
    (queue_urls : List String) (request_id : String) → String
unfolding url_entry
build_list_queues_response queue_urls request_id =
    opened "ListQueues" <> each url_entry queue_urls <> closed "ListQueues" request_id

queue_attribute_entry : String × String → String
queue_attribute_entry (name, value) =
    "    <Attribute>\n"
    <> line "      " "Name" (escape_xml name)
    <> line "      " "Value" (escape_xml value)
    <> "    </Attribute>\n"

unfoldable pub build_get_queue_attributes_response :
    (attributes : List (String × String)) (request_id : String) → String
unfolding queue_attribute_entry
build_get_queue_attributes_response attributes request_id =
    opened "GetQueueAttributes"
    <> each queue_attribute_entry attributes
    <> closed "GetQueueAttributes" request_id
