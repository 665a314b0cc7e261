-- ===== src/Sqs/Handler/Batches.antt =====
-- sqs/handler.rs: the batches of sends, deletions and changes of visibility.
pub mod Kept
pub mod Answers
use Prim.Native.String.{len}
use lclq.Common.{
  ℕ, suc, String, true, false, List, [], ◌∷◌, map, Option, none, ltb, ◌==◌, if◌then◌else◌, length,
}
use lclq.Common.Text.{◌<>◌, to_string}
use lclq.Error.{Result, ok, err}
use lclq.Error.Display.{error_text}
use lclq.Sqs.Digest.{calculate_md5_of_body}
use lclq.Sqs.Handler.{Outside, Readings, refuse, with_queue}
use lclq.Sqs.Request.{SqsRequest}
use lclq.Sqs.Request.Batch.{
  SendMessageBatchEntry, DeleteMessageBatchEntry, ChangeVisibilityBatchEntry,
  parse_send_message_batch_entries, parse_delete_message_batch_entries,
  parse_change_visibility_batch_entries,
}
use lclq.Sqs.Response.Lists.{
  BatchResultEntry, BatchErrorEntry, build_send_message_batch_response,
  build_delete_message_batch_response, build_change_visibility_batch_response,
}
use lclq.Sqs.Types.{invalid_parameter_value}
use lclq.Storage.{StorageBackend}
use lclq.Types.{Message}
use lclq.Validation.{sqs_max_message_size}

-- What one round of the loop pushes: an entry of the successful or of the failed ones.
pub data Outcome {ℓ} (R : Type ℓ) : Type ℓ where
  successful : R → Outcome R
  failed : BatchErrorEntry → Outcome R

abbrev pub push_outcome {ℓ} :
    {R : Type ℓ} → Outcome R → List R × List BatchErrorEntry → List R × List BatchErrorEntry
push_outcome (successful r) (rs, es) = (r ∷ rs, es)
push_outcome (failed e) (rs, es) = (rs, e ∷ es)

-- The loop over the entries, which threads the state; the index picks the readings of a round.
unfoldable pub process {ℓ κ μ} :
    {Entry : Type ℓ} {R : Type κ} {State : Type μ}
    → (ℕ → Entry → State → Outcome R × State)
    → ℕ
    → List Entry
    → State
    → (List R × List BatchErrorEntry) × State
process one i [] s = (([], []), s)
process one i (entry ∷ rest) s =
    let (outcome, s₁) = one i entry s in
    let (lists, s₂) = process one (suc i) rest s₁ in (push_outcome outcome lists, s₂)

-- The two tests on the number of entries.
unfoldable pub with_entries {ℓ} :
    {Entry : Type ℓ} {State : Type 0}
    → (request_id : String) → List Entry
    → State
    → (List Entry → String × State)
    → String × State
with_entries request_id entries s next =
    if length entries == 0
    then refuse invalid_parameter_value "No batch entries provided" request_id s
    else if ltb 10 (length entries)
    then refuse invalid_parameter_value "Maximum 10 batch entries allowed" request_id s
    else next entries

module _ {State : Type 0} (backend : StorageBackend State) (outside : Outside)
    (readings : Readings) where
  too_long : SendMessageBatchEntry → BatchErrorEntry
  too_long entry = record {
    id = entry.id;
    code = "MessageTooLong";
    message =
        "Message body size "
        <> to_string (len entry.message_body)
        <> " exceeds maximum "
        <> to_string sqs_max_message_size;
    sender_fault = true;
  }

  entry_message : ℕ → (queue_name : String) → SendMessageBatchEntry → Message
  entry_message i queue_name entry = record {
    id = readings.new_id i;
    body = entry.message_body;
    attributes = [];
    queue_id = queue_name;
    sent_timestamp = readings.now i;
    receive_count = 0;
    message_group_id = entry.message_group_id;
    deduplication_id = entry.message_deduplication_id;
    sequence_number = none;
    delay_seconds = entry.delay_seconds;
  }

  sent_entry : SendMessageBatchEntry → Result Message × State → Outcome BatchResultEntry × State
  sent_entry entry (ok m, s) = (
    successful (record {
      id = entry.id;
      message_id = m.id;
      md5_of_body = calculate_md5_of_body outside.md5_hex m.body;
      md5_of_attrs = none;
    }),
    s,
  )
  sent_entry entry (err e, s) = (
    failed (record {
      id = entry.id;
      code = "InternalError";
      message = error_text e;
      sender_fault = false;
    }),
    s,
  )

  unfoldable pub send_entry :
      (queue_name : String) → ℕ → SendMessageBatchEntry → State → Outcome BatchResultEntry × State
  unfolding too_long entry_message sent_entry
  send_entry queue_name i entry s =
      if ltb sqs_max_message_size (len entry.message_body)
      then (failed (too_long entry), s)
      else sent_entry entry (backend.send_message s queue_name (entry_message i queue_name entry))

  abbrev sent_answer : (List BatchResultEntry × List BatchErrorEntry) × State → String × State
  sent_answer ((rs, es), s) = (build_send_message_batch_response rs es readings.request_id, s)

  unfoldable pub handle_send_message_batch : SqsRequest → State → String × State
  handle_send_message_batch request s = with_queue request readings.request_id s λ queue_name.
      with_entries readings.request_id (parse_send_message_batch_entries outside.serde request) s
        λ entries. sent_answer (process (send_entry queue_name) 0 entries s)

  -- The outcome of an operation on a receipt handle.
  handled : (id : String) → Result (Unit {0}) × State → Outcome String × State
  handled entry_id (ok _, s) = (successful entry_id, s)
  handled entry_id (err e, s) = (
    failed (record {
      id = entry_id;
      code = "ReceiptHandleIsInvalid";
      message = error_text e;
      sender_fault = true;
    }),
    s,
  )

  unfoldable pub delete_entry :
      (queue_name : String) → ℕ → DeleteMessageBatchEntry → State → Outcome String × State
  unfolding handled
  delete_entry queue_name i entry s =
      handled entry.id (backend.delete_message s queue_name entry.receipt_handle)

  abbrev deleted_answer : (List String × List BatchErrorEntry) × State → String × State
  deleted_answer ((ids, es), s) =
      (build_delete_message_batch_response ids es readings.request_id, s)

  unfoldable pub handle_delete_message_batch : SqsRequest → State → String × State
  handle_delete_message_batch request s = with_queue request readings.request_id s λ queue_name.
      with_entries readings.request_id (parse_delete_message_batch_entries outside.serde request) s
        λ entries. deleted_answer (process (delete_entry queue_name) 0 entries s)

  timeout_refused : (id : String) → BatchErrorEntry
  timeout_refused entry_id = record {
    id = entry_id;
    code = "InvalidParameterValue";
    message = "VisibilityTimeout must be between 0 and 43200 seconds";
    sender_fault = true;
  }

  unfoldable pub change_entry :
      (queue_name : String) → ℕ → ChangeVisibilityBatchEntry → State → Outcome String × State
  unfolding handled timeout_refused
  change_entry queue_name i entry s =
      if ltb 43200 entry.visibility_timeout
      then (failed (timeout_refused entry.id), s)
      else handled entry.id
          (backend.change_visibility s queue_name entry.receipt_handle entry.visibility_timeout)

  abbrev changed_answer : (List String × List BatchErrorEntry) × State → String × State
  changed_answer ((ids, es), s) =
      (build_change_visibility_batch_response ids es readings.request_id, s)

  unfoldable pub handle_change_message_visibility_batch : SqsRequest → State → String × State
  handle_change_message_visibility_batch request s =
      with_queue request readings.request_id s λ queue_name.
        with_entries readings.request_id
          (parse_change_visibility_batch_entries outside.serde request) s
          λ entries. changed_answer (process (change_entry queue_name) 0 entries s)
