-- ===== src/Sqs/Handler/Dispatch/Own.antt =====
-- About `handle_request` of sqs/handler.rs: which calls of the backend a request makes.
use Prim.Native.Char.{Char}
use lclq.Common.{ℕ, ◌≤◌, String, ◌≡◌, Bool}
use lclq.Error.{ok}
use lclq.Sqs.Handler.Calls.{
  Operation, creates, updates, deletes, purges, sends, receives, acknowledges, changes,
}
use lclq.Sqs.Handler.Updates.Bounds.{IsUpdateOf}
use lclq.Storage.{StorageBackend}
use lclq.Types.{Message, QueueConfig, ReceiveOptions}
use lclq.Validation.{validate_sqs_queue_name}

-- The states that some operations lead to, each called as the handler may call it: a queue is
-- created under a valid name, which is its ID; an update keeps ID, name, type and limits of a
-- stored configuration; a new message belongs to its queue; a receive asks for ten messages at
-- most; and a visibility timeout is twelve hours at most.
pub data CallsOnly {State : Type 0} (backend : StorageBackend State) (is_alphanumeric : Char → Bool)
    (Own : Operation → Type 0) (start : State) : State → Type 0 where
  nothing : CallsOnly backend is_alphanumeric Own start start
  creating :
      {s : State} (s' : State) (config : QueueConfig)
      → Own creates
      → validate_sqs_queue_name is_alphanumeric config.name ≡ ok tt
      → config.id ≡ config.name
      → CallsOnly backend is_alphanumeric Own start s
      → s' ≡ (backend.create_queue s config).1
      → CallsOnly backend is_alphanumeric Own start s'
  updating :
      {s : State} (s' : State) (id : String) (config updated : QueueConfig)
      → Own updates
      → backend.get_queue s id ≡ ok config
      → IsUpdateOf config updated
      → CallsOnly backend is_alphanumeric Own start s
      → s' ≡ (backend.update_queue s updated).1
      → CallsOnly backend is_alphanumeric Own start s'
  deleting :
      {s : State} (s' : State) (id : String)
      → Own deletes
      → CallsOnly backend is_alphanumeric Own start s
      → s' ≡ (backend.delete_queue s id).1
      → CallsOnly backend is_alphanumeric Own start s'
  purging :
      {s : State} (s' : State) (id : String)
      → Own purges
      → CallsOnly backend is_alphanumeric Own start s
      → s' ≡ (backend.purge_queue s id).1
      → CallsOnly backend is_alphanumeric Own start s'
  sending :
      {s : State} (s' : State) (id : String) (m : Message)
      → Own sends
      → m.queue_id ≡ id
      → m.receive_count ≡ 0
      → CallsOnly backend is_alphanumeric Own start s
      → s' ≡ (backend.send_message s id m).1
      → CallsOnly backend is_alphanumeric Own start s'
  receiving :
      {s : State} (s' : State) (id : String) (options : ReceiveOptions)
      → Own receives
      → options.max_messages ≤ 10
      → CallsOnly backend is_alphanumeric Own start s
      → s' ≡ (backend.receive_messages s id options).1
      → CallsOnly backend is_alphanumeric Own start s'
  acknowledging :
      {s : State} (s' : State) (id handle : String)
      → Own acknowledges
      → CallsOnly backend is_alphanumeric Own start s
      → s' ≡ (backend.delete_message s id handle).1
      → CallsOnly backend is_alphanumeric Own start s'
  changing :
      {s : State} (s' : State) (id handle : String) (timeout : ℕ)
      → Own changes
      → timeout ≤ 43200
      → CallsOnly backend is_alphanumeric Own start s
      → s' ≡ (backend.change_visibility s id handle timeout).1
      → CallsOnly backend is_alphanumeric Own start s'
