-- ===== src/Sqs/Response.antt =====
-- sqs/response.rs: the XML responses, as texts. `request_id` stands for the UUID that a response
-- draws. The responses that list entries are in the child module.
pub mod Lists
use lclq.Common.{String, Bool, true, false, List, [], ◌∷◌, ◌++◌, Option, none, some}
use lclq.Common.Text.{◌<>◌}
use lclq.Sqs.Escape.{escape_xml}
use lclq.Sqs.Types.{SqsErrorCode, code_as_str}

-- A loop that pushes a text for each item.
abbrev pub each {ℓ} : {A : Type ℓ} → (A → String) → List A → String
each f [] = ""
each f (x ∷ xs) = f x <> each f xs

-- `<name>text</name>` on a line of its own behind the indentation.
abbrev pub line : (indent name text : String) → String
line indent name text = indent <> "<" <> name <> ">" <> text <> "</" <> name <> ">\n"

abbrev xml_head : String
xml_head = "<?xml version=\"1.0\"?>\n"

abbrev metadata : String → String
metadata request_id =
    "  <ResponseMetadata>\n" <> "    <RequestId>" <> request_id <> "</RequestId>\n"
    <> "  </ResponseMetadata>\n"

abbrev pub opened : (action : String) → String
opened action =
    xml_head <> "<" <> action <> "Response xmlns=\"http://queue.amazonaws.com/doc/2012-11-05/\">\n"
    <> "  <" <> action <> "Result>\n"

abbrev pub closed : (action request_id : String) → String
closed action request_id =
    "  </" <> action <> "Result>\n" <> metadata request_id <> "</" <> action <> "Response>"

pub record XmlResponseBuilder : Type 0 where
  pub action : String
  pub request_id : String
  pub elements : List (String × String)

abbrev pub new_builder : (action request_id : String) → XmlResponseBuilder
new_builder name id = record { action = name; request_id = id; elements = [] }

abbrev pub add_element : XmlResponseBuilder → (name value : String) → XmlResponseBuilder
add_element builder name value = record builder {
  elements = builder.elements ++ ((name, value) ∷ []);
}

abbrev pub optional_line : (indent name : String) → Option String → String
optional_line indent name none = ""
optional_line indent name (some text) = line indent name (escape_xml text)

element_line : String × String → String
element_line (name, value) = line "    " name (escape_xml value)

unfoldable pub build : XmlResponseBuilder → String
unfolding element_line
build builder =
    opened builder.action
    <> each element_line builder.elements
    <> closed builder.action builder.request_id

unfoldable pub build_error_response : SqsErrorCode → (message request_id : String) → String
build_error_response code message request_id =
    "<?xml version=\"1.0\"?>\n<ErrorResponse xmlns=\"http://queue.amazonaws.com/doc/2012-11-05/\">\n  <Error>\n    <Type>Sender</Type>\n    <Code>"
    <> code_as_str code
    <> "</Code>\n    <Message>"
    <> escape_xml message
    <> "</Message>\n  </Error>\n  <RequestId>"
    <> request_id
    <> "</RequestId>\n</ErrorResponse>"

abbrev with_attributes : XmlResponseBuilder → Option String → XmlResponseBuilder
with_attributes builder none = builder
with_attributes builder (some md5) = add_element builder "MD5OfMessageAttributes" md5

unfoldable pub build_send_message_response :
    (message_id md5_of_body : String) (md5_of_attrs : Option String) (request_id : String) → String
unfolding build
build_send_message_response message_id md5_of_body md5_of_attrs request_id =
    let builder =
      add_element (add_element (new_builder "SendMessage" request_id) "MessageId" message_id)
        "MD5OfMessageBody" md5_of_body in
    build (with_attributes builder md5_of_attrs)

unfoldable pub build_create_queue_response : (queue_url request_id : String) → String
unfolding build
build_create_queue_response queue_url request_id =
    build (add_element (new_builder "CreateQueue" request_id) "QueueUrl" queue_url)

unfoldable pub build_get_queue_url_response : (queue_url request_id : String) → String
unfolding build
build_get_queue_url_response queue_url request_id =
    build (add_element (new_builder "GetQueueUrl" request_id) "QueueUrl" queue_url)

unfoldable pub build_delete_message_response : (request_id : String) → String
unfolding build
build_delete_message_response request_id = build (new_builder "DeleteMessage" request_id)

unfoldable pub build_tag_queue_response : (request_id : String) → String
unfolding build
build_tag_queue_response request_id = build (new_builder "TagQueue" request_id)

unfoldable pub build_untag_queue_response : (request_id : String) → String
unfolding build
build_untag_queue_response request_id = build (new_builder "UntagQueue" request_id)

unfoldable pub build_change_message_visibility_response : (request_id : String) → String
unfolding build
build_change_message_visibility_response request_id =
    build (new_builder "ChangeMessageVisibility" request_id)
