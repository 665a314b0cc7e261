-- ===== src/Sqs/Handler/Dispatch/Refused.antt =====
-- About `handle_request` of sqs/handler.rs: requests without their queue.
use lclq.Common.{Bool, true, false, String, ◌≡◌, refl, ap, ◌∙◌, Option, none, some, arith}
use lclq.Common.Text.{◌<>◌}
use lclq.Sqs.Handler.{Outside, Readings, required, with_queue, on_value}
use lclq.Sqs.Handler.Attributes.{handle_get_queue_attributes}
use lclq.Sqs.Handler.Batches.{
  handle_send_message_batch, handle_delete_message_batch, handle_change_message_visibility_batch,
}
use lclq.Sqs.Handler.Messages.{
  handle_send_message, handle_receive_message, handle_delete_message,
  handle_change_message_visibility,
}
use lclq.Sqs.Handler.Queues.{
  handle_create_queue, handle_get_queue_url, handle_delete_queue, handle_purge_queue,
}
use lclq.Sqs.Handler.Tags.{handle_tag_queue, handle_untag_queue, handle_list_queue_tags}
use lclq.Sqs.Handler.Updates.{handle_set_queue_attributes}
use lclq.Sqs.Handler.Dispatch.{answered, encoded, respond, handle_request}
use lclq.Sqs.Request.{SqsRequest, get_param, get_required_param}
use lclq.Sqs.Response.{build_error_response}
use lclq.Sqs.Types
use lclq.Sqs.Types.{SqsAction, missing_parameter, failure}
use lclq.Storage.{StorageBackend}

-- The parameter that names the queue of an action, of which `ListQueues` has none.
abbrev pub queue_parameter : SqsAction → Option String
queue_parameter Types.list_queues = none
queue_parameter Types.create_queue = some "QueueName"
queue_parameter Types.get_queue_url = some "QueueName"
queue_parameter _ = some "QueueUrl"

module _ {State : Type 0} (backend : StorageBackend State) (outside : Outside) (readings : Readings)
    (base_url : String) where
  get_required_param-missing :
      (request : SqsRequest) (key : String)
      → get_param request key ≡ none
      → get_required_param request key ≡ failure ("Missing required parameter: " <> key)
  unfolding get_required_param
  get_required_param-missing request key absent = rw (get_required_param, absent) refl

  required-missing :
      (name key : String) (request : SqsRequest) (request_id : String) (s : State)
      (next : String → String × State)
      → some name ≡ some key
      → get_param request key ≡ none
      → required request request_id name s next ≡ (
        build_error_response missing_parameter ("Missing required parameter: " <> key) request_id,
        s,
      )
  unfolding required on_value
  required-missing name key request request_id s next e absent =
      let same : name ≡ key = cc in rw (same, get_required_param-missing request key absent) refl

  respond-missing_queue :
      (action : SqsAction) (key : String) (request : SqsRequest) (s : State)
      → queue_parameter action ≡ some key
      → get_param request key ≡ none
      → respond backend outside readings base_url action request s ≡ (
        build_error_response missing_parameter
            ("Missing required parameter: " <> key)
            readings.request_id,
        s,
      )
  unfolding respond with_queue handle_get_queue_attributes handle_send_message_batch
      handle_delete_message_batch handle_change_message_visibility_batch handle_send_message
      handle_receive_message handle_delete_message handle_change_message_visibility
      handle_create_queue handle_get_queue_url handle_delete_queue handle_purge_queue
      handle_tag_queue handle_untag_queue handle_list_queue_tags handle_set_queue_attributes
  respond-missing_queue Types.create_queue key request s e absent =
      required-missing "QueueName" key request _ s _ e absent
  respond-missing_queue Types.get_queue_url key request s e absent =
      required-missing "QueueName" key request _ s _ e absent
  respond-missing_queue Types.delete_queue key request s e absent =
      required-missing "QueueUrl" key request _ s _ e absent
  respond-missing_queue Types.send_message key request s e absent =
      required-missing "QueueUrl" key request _ s _ e absent
  respond-missing_queue Types.send_message_batch key request s e absent =
      required-missing "QueueUrl" key request _ s _ e absent
  respond-missing_queue Types.receive_message key request s e absent =
      required-missing "QueueUrl" key request _ s _ e absent
  respond-missing_queue Types.delete_message key request s e absent =
      required-missing "QueueUrl" key request _ s _ e absent
  respond-missing_queue Types.delete_message_batch key request s e absent =
      required-missing "QueueUrl" key request _ s _ e absent
  respond-missing_queue Types.change_message_visibility key request s e absent =
      required-missing "QueueUrl" key request _ s _ e absent
  respond-missing_queue Types.change_message_visibility_batch key request s e absent =
      required-missing "QueueUrl" key request _ s _ e absent
  respond-missing_queue Types.purge_queue key request s e absent =
      required-missing "QueueUrl" key request _ s _ e absent
  respond-missing_queue Types.get_queue_attributes key request s e absent =
      required-missing "QueueUrl" key request _ s _ e absent
  respond-missing_queue Types.set_queue_attributes key request s e absent =
      required-missing "QueueUrl" key request _ s _ e absent
  respond-missing_queue Types.tag_queue key request s e absent =
      required-missing "QueueUrl" key request _ s _ e absent
  respond-missing_queue Types.untag_queue key request s e absent =
      required-missing "QueueUrl" key request _ s _ e absent
  respond-missing_queue Types.list_queue_tags key request s e absent =
      required-missing "QueueUrl" key request _ s _ e absent
  respond-missing_queue Types.list_queues key request s e absent = absurd (ground arith)

  encoded_form :
      (is_json : Bool) (x : String × State)
      → is_json ≡ false
      → encoded backend outside readings base_url is_json x ≡ (answered "application/xml" x.0, x.1)
  unfolding encoded
  encoded_form true x e = absurd (ground arith)
  encoded_form false (xml, s) e = refl

  -- A form-encoded request of any action but ListQueues that lacks the parameter that names its
  -- queue is answered with MissingParameter and that name, and changes nothing.
  pub handle_request-missing_queue :
      (key : String) (request : SqsRequest) (s : State)
      → request.is_json ≡ false
      → queue_parameter request.action ≡ some key
      → get_param request key ≡ none
      → handle_request backend outside readings base_url request s ≡ (
        answered "application/xml" (
            build_error_response missing_parameter
              ("Missing required parameter: " <> key)
              readings.request_id),
        s,
      )
  unfolding handle_request
  handle_request-missing_queue key request s form e absent =
      encoded_form request.is_json _ form
      ∙ ap (λ x. (answered "application/xml" x.0, x.1))
          (respond-missing_queue request.action key request s e absent)
