-- ===== src/Sqs/Handler/Tags/Kept.antt =====
-- About the tags of sqs/handler.rs: what the calls of the backend keep, the actions keep.
use lclq.Common.{String, ◌≡◌, refl}
use lclq.Error.{Result, ok, err}
use lclq.Sqs.Handler.{Outside, Readings}
use lclq.Sqs.Handler.Calls.{KeepsPredicate, Operation, updates, with_queue-keeps, on_config-keeps}
use lclq.Sqs.Request.{SqsRequest}
use lclq.Storage.{StorageBackend}
use lclq.Types.{QueueConfig}
use lclq.Sqs.Handler.Tags.{
  add_tags, remove_tags, with_config, updated, handle_tag_queue, handle_untag_queue,
  handle_list_queue_tags,
}

module _ {State : Type 0} (backend : StorageBackend State) (outside : Outside) (readings : Readings)
    (I : State → Type 0) (Own : Operation → Type 0)
    (keeps : KeepsPredicate backend outside.is_alphanumeric Own I) where
  with_config-keeps :
      (request : SqsRequest) (s : State) (next : QueueConfig → String × State)
      → I s
      → ((name : String) (config : QueueConfig)
          → backend.get_queue s name ≡ ok config
          → I ((next config).1))
      → I ((with_config backend readings request s next).1)
  unfolding with_config
  with_config-keeps request s next i h =
      with_queue-keeps I request readings.request_id s _ i
        λ queue_name. on_config-keeps I readings.request_id s next _ i (h queue_name)

  updated-keeps :
      (response : String) (x : Result QueueConfig × State)
      → I (x.1)
      → I ((updated backend readings response x).1)
  unfolding updated
  updated-keeps response (ok _, s) i = i
  updated-keeps response (err _, s) i = i

  pub handle_tag_queue-keeps :
      Own updates
      → (request : SqsRequest) (s : State) → I s
      → I ((handle_tag_queue backend readings request s).1)
  unfolding handle_tag_queue add_tags
  handle_tag_queue-keeps own request s i = with_config-keeps request s _ i λ name config found.
      updated-keeps _ _ (
        keeps.update own s name config _ found
          (record {
            same_id = refl;
            same_name = refl;
            same_type = refl;
            limits = λ l. record {
              visibility = l.visibility;
              retention = l.retention;
              size = l.size;
              delay = l.delay;
            };
          })
          i)

  pub handle_untag_queue-keeps :
      Own updates
      → (request : SqsRequest) (s : State) → I s
      → I ((handle_untag_queue backend readings request s).1)
  unfolding handle_untag_queue remove_tags
  handle_untag_queue-keeps own request s i = with_config-keeps request s _ i λ name config found.
      updated-keeps _ _ (
        keeps.update own s name config _ found
          (record {
            same_id = refl;
            same_name = refl;
            same_type = refl;
            limits = λ l. record {
              visibility = l.visibility;
              retention = l.retention;
              size = l.size;
              delay = l.delay;
            };
          })
          i)

  pub handle_list_queue_tags-keeps :
      (request : SqsRequest) (s : State)
      → I s
      → I ((handle_list_queue_tags backend readings request s).1)
  unfolding handle_list_queue_tags
  handle_list_queue_tags-keeps request s i = with_config-keeps request s _ i λ name config found. i
