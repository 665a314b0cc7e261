-- ===== src/Sqs/Handler/Updates/Kept.antt =====
-- About `SetQueueAttributes` of sqs/handler.rs: what the calls of the backend keep, it keeps.
use lclq.Common.{String, ◌≡◌, refl}
use lclq.Error.{Result, ok, err}
use lclq.Sqs.Handler.{Outside, Readings}
use lclq.Sqs.Handler.Calls.{KeepsPredicate, Operation, updates, with_queue-keeps, on_config-keeps}
use lclq.Sqs.Request.{SqsRequest}
use lclq.Sqs.Types.{Attempt, success, failure}
use lclq.Storage.{StorageBackend}
use lclq.Types.{QueueConfig}
use lclq.Sqs.Handler.Updates.{set_attributes, updated, update, handle_set_queue_attributes}
use lclq.Sqs.Handler.Updates.Bounds.{IsUpdateOf}
use lclq.Sqs.Handler.Updates.Changes.{set_attributes-IsUpdateOf}
use lclq.Sqs.Request.{parse_queue_attributes}

module _ {State : Type 0} (backend : StorageBackend State) (outside : Outside) (readings : Readings)
    (I : State → Type 0) (Own : Operation → Type 0)
    (keeps : KeepsPredicate backend outside.is_alphanumeric Own I) where
  updated-keeps :
      (x : Result QueueConfig × State) → I (x.1) → I ((updated backend outside readings x).1)
  unfolding updated
  updated-keeps (ok _, s) i = i
  updated-keeps (err _, s) i = i

  update-keeps :
      Own updates
      → (changed : Attempt QueueConfig) (s : State) (name : String) (config : QueueConfig)
      → backend.get_queue s name ≡ ok config
      → ((next : QueueConfig) → changed ≡ success next → IsUpdateOf config next)
      → I s
      → I ((update backend outside readings changed s).1)
  unfolding update
  update-keeps own (failure e) s name config found h i = i
  update-keeps own (success next) s name config found h i =
      updated-keeps _ (keeps.update own s name config next found (h next refl) i)

  pub handle_set_queue_attributes-keeps :
      Own updates
      → (request : SqsRequest) (s : State) → I s
      → I ((handle_set_queue_attributes backend outside readings request s).1)
  unfolding handle_set_queue_attributes
  handle_set_queue_attributes-keeps own request s i =
      with_queue-keeps I request readings.request_id s _ i λ queue_name.
        on_config-keeps I readings.request_id s _ _ i λ config found.
          update-keeps own (set_attributes outside (parse_queue_attributes request) config) s
            queue_name config found
            (set_attributes-IsUpdateOf outside (parse_queue_attributes request) config) i
