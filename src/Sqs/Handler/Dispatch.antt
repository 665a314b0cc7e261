-- ===== src/Sqs/Handler/Dispatch.antt =====
-- sqs/handler.rs: `handle_request`, and sqs/server.rs: the HTTP request around it.
pub mod Refused
pub mod Kept
pub mod OverMemory
pub mod Own
use lclq.Common.{String, Bool, true, false, Option, none, some}
use lclq.Common.Text.{◌<>◌}
use lclq.Sqs.Handler.{Outside, Readings}
use lclq.Sqs.Handler.Attributes.{handle_get_queue_attributes}
use lclq.Sqs.Handler.Batches.{
  handle_send_message_batch, handle_delete_message_batch, handle_change_message_visibility_batch,
}
use lclq.Sqs.Handler.JsonAnswer.Choice.{xml_to_json_response}
use lclq.Sqs.Handler.Messages.{
  handle_send_message, handle_receive_message, handle_delete_message,
  handle_change_message_visibility,
}
use lclq.Sqs.Handler.Queues.{
  handle_create_queue, handle_get_queue_url, handle_delete_queue, handle_list_queues,
  handle_purge_queue,
}
use lclq.Sqs.Handler.Tags.{handle_tag_queue, handle_untag_queue, handle_list_queue_tags}
use lclq.Sqs.Handler.Updates.{handle_set_queue_attributes}
use lclq.Sqs.Request.{SqsRequest}
use lclq.Sqs.Request.Protocol.{parse_with_headers}
use lclq.Sqs.Types
use lclq.Sqs.Types.{Attempt, success, failure, SqsAction}
use lclq.Storage.{StorageBackend}

-- The status, the content type and the body of an HTTP response; a panic drops the connection.
pub data HttpAnswer : Type 0 where
  bad_request : (body : String) → HttpAnswer
  answered : (content_type body : String) → HttpAnswer
  panicked : HttpAnswer

module _ {State : Type 0} (backend : StorageBackend State) (outside : Outside) (readings : Readings)
    (base_url : String) where
  unfoldable pub respond : SqsAction → SqsRequest → State → String × State
  respond Types.create_queue request s =
      handle_create_queue backend outside readings base_url request s
  respond Types.get_queue_url request s =
      handle_get_queue_url backend outside readings base_url request s
  respond Types.delete_queue request s =
      handle_delete_queue backend outside readings base_url request s
  respond Types.list_queues request s =
      handle_list_queues backend outside readings base_url request s
  respond Types.send_message request s = handle_send_message backend outside readings request s
  respond Types.send_message_batch request s =
      handle_send_message_batch backend outside readings request s
  respond Types.receive_message request s =
      handle_receive_message backend outside readings request s
  respond Types.delete_message request s = handle_delete_message backend outside readings request s
  respond Types.delete_message_batch request s =
      handle_delete_message_batch backend outside readings request s
  respond Types.change_message_visibility request s =
      handle_change_message_visibility backend outside readings request s
  respond Types.change_message_visibility_batch request s =
      handle_change_message_visibility_batch backend outside readings request s
  respond Types.purge_queue request s =
      handle_purge_queue backend outside readings base_url request s
  respond Types.get_queue_attributes request s =
      handle_get_queue_attributes backend outside readings request s
  respond Types.set_queue_attributes request s =
      handle_set_queue_attributes backend outside readings request s
  respond Types.tag_queue request s = handle_tag_queue backend readings request s
  respond Types.untag_queue request s = handle_untag_queue backend readings request s
  respond Types.list_queue_tags request s = handle_list_queue_tags backend readings request s

  json_body : Option String → HttpAnswer
  json_body none = panicked
  json_body (some body) = answered "application/x-amz-json-1.0" body

  encoded : (is_json : Bool) → String × State → HttpAnswer × State
  unfolding json_body
  encoded true (xml, s) = (json_body (xml_to_json_response outside.serde xml), s)
  encoded false (xml, s) = (answered "application/xml" xml, s)

  unfoldable pub handle_request : SqsRequest → State → HttpAnswer × State
  unfolding encoded
  handle_request request s = encoded request.is_json (respond request.action request s)

  -- The bytes of a body that are no UTF-8 have no text.
  handle_parsed : Attempt SqsRequest → State → HttpAnswer × State
  handle_parsed (failure e) s = (bad_request ("Invalid request: " <> e), s)
  handle_parsed (success request) s = handle_request request s

  unfoldable pub handle_sqs_request :
      (url_decode : String → Option String) (json_error : String) (body : Option String)
      (header : String → Option String)
      → State
      → HttpAnswer × State
  unfolding handle_parsed
  handle_sqs_request url_decode json_error none header s =
      (bad_request "Invalid request body encoding", s)
  handle_sqs_request url_decode json_error (some body) header s =
      handle_parsed (parse_with_headers outside.serde url_decode json_error body header) s
