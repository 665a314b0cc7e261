-- ===== src/Sqs/Handler/Attributes/Kept.antt =====
-- About `GetQueueAttributes` of sqs/handler.rs: it leaves the state alone.
use lclq.Error.{Result, ok, err}
use lclq.Sqs.Handler.{Outside, Readings}
use lclq.Sqs.Handler.Calls.{KeepsPredicate, Operation, with_queue-keeps, on_config-keeps}
use lclq.Sqs.Request.{SqsRequest}
use lclq.Storage.{StorageBackend}
use lclq.Types.{QueueConfig, QueueStats}
use lclq.Sqs.Handler.Attributes.{with_stats, handle_get_queue_attributes}

module _ {State : Type 0} (backend : StorageBackend State) (outside : Outside) (readings : Readings)
    (I : State → Type 0) (Own : Operation → Type 0)
    (keeps : KeepsPredicate backend outside.is_alphanumeric Own I) where
  with_stats-keeps :
      (request : SqsRequest) (s : State) (config : QueueConfig) (stats : Result QueueStats)
      → I s
      → I ((with_stats backend outside readings request s config stats).1)
  unfolding with_stats
  with_stats-keeps request s config (ok _) i = i
  with_stats-keeps request s config (err _) i = i

  pub handle_get_queue_attributes-keeps :
      (request : SqsRequest) (s : State)
      → I s
      → I ((handle_get_queue_attributes backend outside readings request s).1)
  unfolding handle_get_queue_attributes
  handle_get_queue_attributes-keeps request s i =
      with_queue-keeps I request readings.request_id s _ i λ queue_name.
        on_config-keeps I readings.request_id s _ _ i
          λ config found. with_stats-keeps request s config (backend.get_stats s queue_name) i
