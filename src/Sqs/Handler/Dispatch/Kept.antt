-- ===== src/Sqs/Handler/Dispatch/Kept.antt =====
-- About `handle_request` of sqs/handler.rs and the HTTP request around it: what the calls of the
-- backend keep, a request keeps, whatever its body.
use lclq.Common.{◌≡◌, refl, String, Bool, true, false, Option, none, some}
use lclq.Sqs.Handler.{Outside, Readings}
use lclq.Sqs.Handler.Calls.{
  KeepsPredicate, Operation, creates, updates, deletes, purges, sends, receives, acknowledges,
  changes,
}
use lclq.Sqs.Handler.Dispatch.{respond, encoded, handle_request, handle_parsed, handle_sqs_request}
use lclq.Sqs.Handler.Attributes.Kept.{handle_get_queue_attributes-keeps}
use lclq.Sqs.Handler.Batches.Kept.{
  handle_send_message_batch-keeps, handle_delete_message_batch-keeps,
  handle_change_message_visibility_batch-keeps,
}
use lclq.Sqs.Handler.Messages.Kept.{
  handle_send_message-keeps, handle_receive_message-keeps, handle_delete_message-keeps,
  handle_change_message_visibility-keeps,
}
use lclq.Sqs.Handler.Queues.Kept.{
  handle_create_queue-keeps, handle_get_queue_url-keeps, handle_delete_queue-keeps,
  handle_list_queues-keeps, handle_purge_queue-keeps,
}
use lclq.Sqs.Handler.Tags.Kept.{
  handle_tag_queue-keeps, handle_untag_queue-keeps, handle_list_queue_tags-keeps,
}
use lclq.Sqs.Handler.Updates.Kept.{handle_set_queue_attributes-keeps}
use lclq.Sqs.Request.{SqsRequest}
use lclq.Sqs.Request.Protocol.{parse_with_headers}
use lclq.Sqs.Types
use lclq.Sqs.Types.{SqsAction, Attempt, success, failure}
use lclq.Storage.{StorageBackend}

-- The operation that an action is there for, of which the actions that only read have none.
abbrev pub own_operation : SqsAction → Option Operation
own_operation Types.create_queue = some creates
own_operation Types.delete_queue = some deletes
own_operation Types.purge_queue = some purges
own_operation Types.send_message = some sends
own_operation Types.send_message_batch = some sends
own_operation Types.receive_message = some receives
own_operation Types.delete_message = some acknowledges
own_operation Types.delete_message_batch = some acknowledges
own_operation Types.change_message_visibility = some changes
own_operation Types.change_message_visibility_batch = some changes
own_operation Types.set_queue_attributes = some updates
own_operation Types.tag_queue = some updates
own_operation Types.untag_queue = some updates
own_operation Types.get_queue_url = none
own_operation Types.list_queues = none
own_operation Types.get_queue_attributes = none
own_operation Types.list_queue_tags = none

module _ {State : Type 0} (backend : StorageBackend State) (outside : Outside) (readings : Readings)
    (base_url : String) (I : State → Type 0) (Own : Operation → Type 0)
    (keeps : KeepsPredicate backend outside.is_alphanumeric Own I) where
  respond-keeps :
      (action : SqsAction) (request : SqsRequest) (s : State)
      → ((op : Operation) → own_operation action ≡ some op → Own op)
      → I s
      → I ((respond backend outside readings base_url action request s).1)
  unfolding respond
  respond-keeps Types.create_queue request s own i =
      handle_create_queue-keeps backend outside readings base_url I Own keeps (own _ refl) request s
        i
  respond-keeps Types.get_queue_url request s own i =
      handle_get_queue_url-keeps backend outside readings base_url I Own keeps request s i
  respond-keeps Types.delete_queue request s own i =
      handle_delete_queue-keeps backend outside readings base_url I Own keeps (own _ refl) request s
        i
  respond-keeps Types.list_queues request s own i =
      handle_list_queues-keeps backend outside readings base_url I Own keeps request s i
  respond-keeps Types.send_message request s own i =
      handle_send_message-keeps backend outside readings I Own keeps (own _ refl) request s i
  respond-keeps Types.send_message_batch request s own i =
      handle_send_message_batch-keeps backend outside readings I Own keeps (own _ refl) request s i
  respond-keeps Types.receive_message request s own i =
      handle_receive_message-keeps backend outside readings I Own keeps (own _ refl) request s i
  respond-keeps Types.delete_message request s own i =
      handle_delete_message-keeps backend outside readings I Own keeps (own _ refl) request s i
  respond-keeps Types.delete_message_batch request s own i =
      handle_delete_message_batch-keeps backend outside readings I Own keeps (own _ refl) request s
        i
  respond-keeps Types.change_message_visibility request s own i =
      handle_change_message_visibility-keeps backend outside readings I Own keeps (own _ refl)
        request s i
  respond-keeps Types.change_message_visibility_batch request s own i =
      handle_change_message_visibility_batch-keeps backend outside readings I Own keeps (own _ refl)
        request s i
  respond-keeps Types.purge_queue request s own i =
      handle_purge_queue-keeps backend outside readings base_url I Own keeps (own _ refl) request s
        i
  respond-keeps Types.get_queue_attributes request s own i =
      handle_get_queue_attributes-keeps backend outside readings I Own keeps request s i
  respond-keeps Types.set_queue_attributes request s own i =
      handle_set_queue_attributes-keeps backend outside readings I Own keeps (own _ refl) request s
        i
  respond-keeps Types.tag_queue request s own i =
      handle_tag_queue-keeps backend outside readings I Own keeps (own _ refl) request s i
  respond-keeps Types.untag_queue request s own i =
      handle_untag_queue-keeps backend outside readings I Own keeps (own _ refl) request s i
  respond-keeps Types.list_queue_tags request s own i =
      handle_list_queue_tags-keeps backend outside readings I Own keeps request s i

  encoded-keeps :
      (is_json : Bool) (x : String × State)
      → I (x.1)
      → I ((encoded backend outside readings base_url is_json x).1)
  unfolding encoded
  encoded-keeps true (xml, s) i = i
  encoded-keeps false (xml, s) i = i

  pub handle_request-keeps :
      (request : SqsRequest) (s : State)
      → ((op : Operation) → own_operation request.action ≡ some op → Own op)
      → I s
      → I ((handle_request backend outside readings base_url request s).1)
  unfolding handle_request
  handle_request-keeps request s own i =
      encoded-keeps request.is_json _ (respond-keeps request.action request s own i)

  handle_parsed-keeps :
      (request : Attempt SqsRequest) (s : State)
      → ((op : Operation) → Own op)
      → I s
      → I ((handle_parsed backend outside readings base_url request s).1)
  unfolding handle_parsed
  handle_parsed-keeps (failure e) s own i = i
  handle_parsed-keeps (success request) s own i = handle_request-keeps request s (λ op _. own op) i

  -- A request, whatever its body and headers, keeps what all operations of the backend keep.
  pub handle_sqs_request-keeps :
      (url_decode : String → Option String) (json_error : String) (body : Option String)
      (header : String → Option String) (s : State)
      → ((op : Operation) → Own op)
      → I s
      → I (
          (handle_sqs_request backend outside readings base_url url_decode json_error body header
            s).1)
  unfolding handle_sqs_request
  handle_sqs_request-keeps url_decode json_error none header s own i = i
  handle_sqs_request-keeps url_decode json_error (some body) header s own i =
      handle_parsed-keeps (parse_with_headers outside.serde url_decode json_error body header) s own
        i
