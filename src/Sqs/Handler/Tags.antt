-- ===== src/Sqs/Handler/Tags.antt =====
-- sqs/handler.rs: the tags of a queue.
pub mod Kept
use lclq.Common.{ℕ, String, List, [], ◌∷◌, Option, none, some}
use lclq.Common.HashMap.{HashMap, insert, remove}
use lclq.Common.Numbered.{collect}
use lclq.Common.Text.{◌<>◌, to_string}
use lclq.Error.{Result, ok, err}
use lclq.Error.Display.{error_text}
use lclq.Sqs.Escape.{escape_xml}
use lclq.Sqs.Handler.{Outside, Readings, refuse, with_queue, on_config}
use lclq.Sqs.Request.{SqsRequest, get_param, both, fuel, insert_all}
use lclq.Sqs.Response.{each, build_tag_queue_response, build_untag_queue_response}
use lclq.Sqs.Types.{internal_error}
use lclq.Storage.{StorageBackend}
use lclq.Types.{QueueConfig}

-- `Tag.N.Key` with `Tag.N.Value`, and `TagKey.N`.
tag : SqsRequest → ℕ → Option (String × String)
tag request i =
    both (get_param request ("Tag." <> to_string i <> ".Key"))
      (get_param request ("Tag." <> to_string i <> ".Value"))

tag_key : SqsRequest → ℕ → Option String
tag_key request i = get_param request ("TagKey." <> to_string i)

abbrev pub remove_all {ℓ} : {V : Type ℓ} → List String → HashMap V → HashMap V
unfolding remove
remove_all [] m = m
remove_all (key ∷ keys) m = remove_all keys (remove key m)

unfoldable pub add_tags : SqsRequest → QueueConfig → QueueConfig
unfolding tag
add_tags request config = record config {
  tags = insert_all (collect (tag request) (fuel request) 1) config.tags;
}

unfoldable pub remove_tags : SqsRequest → QueueConfig → QueueConfig
unfolding tag_key
remove_tags request config = record config {
  tags = remove_all (collect (tag_key request) (fuel request) 1) config.tags;
}

tag_entry : String × String → String
tag_entry (key, value) =
    "<Tag><Key>" <> escape_xml key <> "</Key><Value>" <> escape_xml value <> "</Value></Tag>"

module _ {State : Type 0} (backend : StorageBackend State) (readings : Readings) where
  -- The configuration of the queue that the request names.
  with_config : SqsRequest → State → (QueueConfig → String × State) → String × State
  with_config request s next =
      with_queue request readings.request_id s
        λ queue_name. on_config readings.request_id s next (backend.get_queue s queue_name)

  updated : (response : String) → Result QueueConfig × State → String × State
  updated response (ok _, s) = (response, s)
  updated response (err e, s) = refuse internal_error (error_text e) readings.request_id s

  unfoldable pub handle_tag_queue : SqsRequest → State → String × State
  unfolding with_config updated
  handle_tag_queue request s = with_config request s λ config.
      updated (build_tag_queue_response readings.request_id)
        (backend.update_queue s (add_tags request config))

  unfoldable pub handle_untag_queue : SqsRequest → State → String × State
  unfolding with_config updated
  handle_untag_queue request s = with_config request s λ config.
      updated (build_untag_queue_response readings.request_id)
        (backend.update_queue s (remove_tags request config))

  unfoldable pub handle_list_queue_tags : SqsRequest → State → String × State
  unfolding with_config tag_entry
  handle_list_queue_tags request s = with_config request s λ config. (
    "<?xml version=\"1.0\"?><ListQueueTagsResponse xmlns=\"http://queue.amazonaws.com/doc/2012-11-05/\"><ListQueueTagsResult>"
        <> each tag_entry config.tags
        <> "</ListQueueTagsResult><ResponseMetadata><RequestId>"
        <> readings.request_id
        <> "</RequestId></ResponseMetadata></ListQueueTagsResponse>",
    s,
  )
