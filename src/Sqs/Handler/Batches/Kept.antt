-- ===== src/Sqs/Handler/Batches/Kept.antt =====
-- About the batches of sqs/handler.rs: what the calls of the backend keep, they keep.
use Prim.Native.String.{len}
use lclq.Common.{ℕ, String, refl, inl, inr, ltb, arith, Bool-cases}
use lclq.Error.{Result, ok, err}
use lclq.Sqs.Handler.{Outside, Readings}
use lclq.Sqs.Handler.Calls.{
  KeepsPredicate, Operation, sends, acknowledges, changes, with_queue-keeps, process-keeps,
  with_entries-keeps,
}
use lclq.Sqs.Request.{SqsRequest}
use lclq.Storage.{StorageBackend}
use lclq.Types.{Message}
use lclq.Sqs.Handler.Batches.{
  entry_message, sent_entry, send_entry, handled, delete_entry, change_entry,
  handle_send_message_batch, handle_delete_message_batch, handle_change_message_visibility_batch,
}
use lclq.Sqs.Request.Batch.{
  SendMessageBatchEntry, DeleteMessageBatchEntry, ChangeVisibilityBatchEntry,
}
use lclq.Validation.{sqs_max_message_size}

module _ {State : Type 0} (backend : StorageBackend State) (outside : Outside) (readings : Readings)
    (I : State → Type 0) (Own : Operation → Type 0)
    (keeps : KeepsPredicate backend outside.is_alphanumeric Own I) where
  sent_entry-keeps :
      (entry : SendMessageBatchEntry) (x : Result Message × State)
      → I (x.1)
      → I ((sent_entry backend outside readings entry x).1)
  unfolding sent_entry
  sent_entry-keeps entry (ok _, s) i = i
  sent_entry-keeps entry (err _, s) i = i

  send_entry-keeps :
      Own sends
      → (queue_name : String) (k : ℕ) (entry : SendMessageBatchEntry) (s : State) → I s
      → I ((send_entry backend outside readings queue_name k entry s).1)
  unfolding send_entry entry_message
  send_entry-keeps own queue_name k entry s i =
      elim (Bool-cases (ltb sqs_max_message_size (len entry.message_body))) [
        | inl t ↦ rw t i
        | inr t ↦ rw t (sent_entry-keeps entry _ (keeps.send own s queue_name _ refl refl i))
      ]

  pub handle_send_message_batch-keeps :
      Own sends
      → (request : SqsRequest) (s : State) → I s
      → I ((handle_send_message_batch backend outside readings request s).1)
  unfolding handle_send_message_batch
  handle_send_message_batch-keeps own request s i =
      with_queue-keeps I request readings.request_id s _ i λ queue_name.
        with_entries-keeps I readings.request_id _ s _ i
          (process-keeps I _ (send_entry-keeps own queue_name) 0 _ s i)

  handled-keeps :
      (entry_id : String) (x : Result (Unit {0}) × State)
      → I (x.1)
      → I ((handled backend outside readings entry_id x).1)
  unfolding handled
  handled-keeps entry_id (ok _, s) i = i
  handled-keeps entry_id (err _, s) i = i

  delete_entry-keeps :
      Own acknowledges
      → (queue_name : String) (k : ℕ) (entry : DeleteMessageBatchEntry) (s : State) → I s
      → I ((delete_entry backend outside readings queue_name k entry s).1)
  unfolding delete_entry
  delete_entry-keeps own queue_name k entry s i =
      handled-keeps entry.id _ (keeps.acknowledge own s queue_name entry.receipt_handle i)

  pub handle_delete_message_batch-keeps :
      Own acknowledges
      → (request : SqsRequest) (s : State) → I s
      → I ((handle_delete_message_batch backend outside readings request s).1)
  unfolding handle_delete_message_batch
  handle_delete_message_batch-keeps own request s i =
      with_queue-keeps I request readings.request_id s _ i λ queue_name.
        with_entries-keeps I readings.request_id _ s _ i
          (process-keeps I _ (delete_entry-keeps own queue_name) 0 _ s i)

  change_entry-keeps :
      Own changes
      → (queue_name : String) (k : ℕ) (entry : ChangeVisibilityBatchEntry) (s : State) → I s
      → I ((change_entry backend outside readings queue_name k entry s).1)
  unfolding change_entry
  change_entry-keeps own queue_name k entry s i =
      elim (Bool-cases (ltb 43200 entry.visibility_timeout)) [
        | inl t ↦ rw t i
        | inr t ↦ rw t (
            handled-keeps entry.id _ (
              keeps.change own s queue_name entry.receipt_handle entry.visibility_timeout
                (ground arith) i))
      ]

  pub handle_change_message_visibility_batch-keeps :
      Own changes
      → (request : SqsRequest) (s : State) → I s
      → I ((handle_change_message_visibility_batch backend outside readings request s).1)
  unfolding handle_change_message_visibility_batch
  handle_change_message_visibility_batch-keeps own request s i =
      with_queue-keeps I request readings.request_id s _ i λ queue_name.
        with_entries-keeps I readings.request_id _ s _ i
          (process-keeps I _ (change_entry-keeps own queue_name) 0 _ s i)
