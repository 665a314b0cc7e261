-- ===== src/Sqs/Handler/Queues/Kept.antt =====
-- About the actions on queues of sqs/handler.rs: what the calls of the backend keep, they keep.
use lclq.Common.{String, ◌≡◌, refl, List}
use lclq.Error.{Result, ok, err}
use lclq.Sqs.Handler.{Outside, Readings}
use lclq.Sqs.Handler.Calls.{
  KeepsPredicate, Operation, creates, deletes, purges, required-keeps, with_queue-keeps,
}
use lclq.Sqs.Request.{SqsRequest}
use lclq.Storage.{StorageBackend}
use lclq.Types.{QueueConfig}
use lclq.Sqs.Handler.Queues.{
  requested_config, created, create_named, found_url, deleted, listed, purged, handle_create_queue,
  handle_get_queue_url, handle_delete_queue, handle_list_queues, handle_purge_queue,
}
use lclq.Validation.{validate_sqs_queue_name}

module _ {State : Type 0} (backend : StorageBackend State) (outside : Outside) (readings : Readings)
    (base_url : String) (I : State → Type 0) (Own : Operation → Type 0)
    (keeps : KeepsPredicate backend outside.is_alphanumeric Own I) where
  created-keeps :
      (x : Result QueueConfig × State)
      → I (x.1)
      → I ((created backend outside readings base_url x).1)
  unfolding created
  created-keeps (ok _, s) i = i
  created-keeps (err _, s) i = i

  create_named-keeps :
      Own creates
      → (request : SqsRequest) (queue_name : String) (s : State) (valid : Result (Unit {0}))
      → validate_sqs_queue_name outside.is_alphanumeric queue_name ≡ valid
      → I s
      → I ((create_named backend outside readings base_url request queue_name s valid).1)
  unfolding create_named requested_config
  create_named-keeps own request queue_name s (err e) v i = i
  create_named-keeps own request queue_name s (ok tt) v i =
      created-keeps _ (keeps.create own s _ v refl i)

  pub handle_create_queue-keeps :
      Own creates
      → (request : SqsRequest) (s : State) → I s
      → I ((handle_create_queue backend outside readings base_url request s).1)
  unfolding handle_create_queue
  handle_create_queue-keeps own request s i =
      required-keeps I request readings.request_id "QueueName" s _ i
        λ queue_name. create_named-keeps own request queue_name s _ refl i

  found_url-keeps :
      (queue_name : String) (s : State) (found : Result QueueConfig)
      → I s
      → I ((found_url backend outside readings base_url queue_name s found).1)
  unfolding found_url
  found_url-keeps queue_name s (ok _) i = i
  found_url-keeps queue_name s (err _) i = i

  pub handle_get_queue_url-keeps :
      (request : SqsRequest) (s : State)
      → I s
      → I ((handle_get_queue_url backend outside readings base_url request s).1)
  unfolding handle_get_queue_url
  handle_get_queue_url-keeps request s i =
      required-keeps I request readings.request_id "QueueName" s _ i
        λ queue_name. found_url-keeps queue_name s (backend.get_queue s queue_name) i

  deleted-keeps :
      (queue_name : String) (x : Result (Unit {0}) × State)
      → I (x.1)
      → I ((deleted backend outside readings base_url queue_name x).1)
  unfolding deleted
  deleted-keeps queue_name (ok _, s) i = i
  deleted-keeps queue_name (err _, s) i = i

  pub handle_delete_queue-keeps :
      Own deletes
      → (request : SqsRequest) (s : State) → I s
      → I ((handle_delete_queue backend outside readings base_url request s).1)
  unfolding handle_delete_queue
  handle_delete_queue-keeps own request s i =
      with_queue-keeps I request readings.request_id s _ i
        λ queue_name. deleted-keeps queue_name _ (keeps.delete own s queue_name i)

  listed-keeps :
      (s : State) (found : Result (List QueueConfig))
      → I s
      → I ((listed backend outside readings base_url s found).1)
  unfolding listed
  listed-keeps s (ok _) i = i
  listed-keeps s (err _) i = i

  pub handle_list_queues-keeps :
      (request : SqsRequest) (s : State)
      → I s
      → I ((handle_list_queues backend outside readings base_url request s).1)
  unfolding handle_list_queues
  handle_list_queues-keeps request s i = listed-keeps s _ i

  purged-keeps :
      (x : Result (Unit {0}) × State) → I (x.1) → I ((purged backend outside readings base_url x).1)
  unfolding purged
  purged-keeps (ok _, s) i = i
  purged-keeps (err _, s) i = i

  pub handle_purge_queue-keeps :
      Own purges
      → (request : SqsRequest) (s : State) → I s
      → I ((handle_purge_queue backend outside readings base_url request s).1)
  unfolding handle_purge_queue
  handle_purge_queue-keeps own request s i =
      with_queue-keeps I request readings.request_id s _ i
        λ queue_name. purged-keeps _ (keeps.purge own s queue_name i)
