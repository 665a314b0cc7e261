-- ===== src/Sqs/Handler/Messages/Kept.antt =====
-- About the actions on messages of sqs/handler.rs: what the calls of the backend keep, they keep.
use lclq.Common.{ℕ, ◌≤◌, String, ◌≡◌, refl, List, Option, none, some, arith}
use lclq.Error.{Result, ok, err}
use lclq.Sqs.Handler.{Outside, Readings}
use lclq.Sqs.Handler.Calls.{
  KeepsPredicate, Operation, sends, receives, acknowledges, changes, required-keeps,
  queue_of_url-keeps, with_queue-keeps,
}
use lclq.Sqs.Request.{SqsRequest}
use lclq.Storage.{StorageBackend, ReceivedMessage}
use lclq.Types.{Message}
use lclq.Common.Decimal.{parse_unsigned}
use lclq.Sqs.Handler.Messages.{
  requested_message, sent, receive_options, received_answer, done, at_most, on_timeout,
  handle_send_message, handle_receive_message, handle_delete_message,
  handle_change_message_visibility,
}
use lclq.Sqs.Request.Batch.{max_u32}

module _ {State : Type 0} (backend : StorageBackend State) (outside : Outside) (readings : Readings)
    (I : State → Type 0) (Own : Operation → Type 0)
    (keeps : KeepsPredicate backend outside.is_alphanumeric Own I) where
  sent-keeps :
      (request : SqsRequest) (x : Result Message × State)
      → I (x.1)
      → I ((sent backend outside readings request x).1)
  unfolding sent
  sent-keeps request (ok _, s) i = i
  sent-keeps request (err _, s) i = i

  pub handle_send_message-keeps :
      Own sends
      → (request : SqsRequest) (s : State) → I s
      → I ((handle_send_message backend outside readings request s).1)
  unfolding handle_send_message requested_message
  handle_send_message-keeps own request s i =
      required-keeps I request readings.request_id "QueueUrl" s _ i λ queue_url.
        required-keeps I request readings.request_id "MessageBody" s _ i λ message_body.
          queue_of_url-keeps I readings.request_id queue_url s _ i
            λ queue_name. sent-keeps request _ (keeps.send own s queue_name _ refl refl i)

  received_answer-keeps :
      (x : Result (List ReceivedMessage) × State)
      → I (x.1)
      → I ((received_answer backend outside readings x).1)
  unfolding received_answer
  received_answer-keeps (ok _, s) i = i
  received_answer-keeps (err _, s) i = i

  pub handle_receive_message-keeps :
      Own receives
      → (request : SqsRequest) (s : State) → I s
      → I ((handle_receive_message backend outside readings request s).1)
  unfolding handle_receive_message receive_options
  handle_receive_message-keeps own request s i =
      with_queue-keeps I request readings.request_id s _ i
        λ queue_name. received_answer-keeps _ (keeps.receive own s queue_name _ (omega arith) i)

  done-keeps :
      (response : String) (x : Result (Unit {0}) × State)
      → I (x.1)
      → I ((done backend outside readings response x).1)
  unfolding done
  done-keeps response (ok _, s) i = i
  done-keeps response (err _, s) i = i

  pub handle_delete_message-keeps :
      Own acknowledges
      → (request : SqsRequest) (s : State) → I s
      → I ((handle_delete_message backend outside readings request s).1)
  unfolding handle_delete_message
  handle_delete_message-keeps own request s i =
      required-keeps I request readings.request_id "QueueUrl" s _ i λ queue_url.
        required-keeps I request readings.request_id "ReceiptHandle" s _ i λ receipt_handle.
          queue_of_url-keeps I readings.request_id queue_url s _ i
            λ queue_name. done-keeps _ _ (keeps.acknowledge own s queue_name receipt_handle i)

  at_most-bound :
      (limit n : ℕ) (parsed : Option ℕ)
      → at_most backend outside readings limit parsed ≡ some n
      → n ≤ limit
  unfolding at_most
  at_most-bound limit n none e = ground arith
  at_most-bound limit n (some k) e = ground arith

  on_timeout-keeps :
      (s : State) (next : ℕ → String × State) (timeout : Option ℕ)
      → I s
      → ((n : ℕ) → timeout ≡ some n → I ((next n).1))
      → I ((on_timeout backend outside readings s next timeout).1)
  unfolding on_timeout
  on_timeout-keeps s next none i h = i
  on_timeout-keeps s next (some n) i h = h n refl

  pub handle_change_message_visibility-keeps :
      Own changes
      → (request : SqsRequest) (s : State) → I s
      → I ((handle_change_message_visibility backend outside readings request s).1)
  unfolding handle_change_message_visibility
  handle_change_message_visibility-keeps own request s i =
      required-keeps I request readings.request_id "QueueUrl" s _ i λ queue_url.
        required-keeps I request readings.request_id "ReceiptHandle" s _ i λ receipt_handle.
          required-keeps I request readings.request_id "VisibilityTimeout" s _ i λ timeout.
            on_timeout-keeps s _ _ i λ n accepted.
              queue_of_url-keeps I readings.request_id queue_url s _ i λ queue_name.
                done-keeps _ _ (
                  keeps.change own s queue_name receipt_handle n
                    (at_most-bound 43200 n (parse_unsigned max_u32 timeout) accepted) i)
