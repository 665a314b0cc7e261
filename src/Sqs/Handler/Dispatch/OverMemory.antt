-- ===== src/Sqs/Handler/Dispatch/OverMemory.antt =====
-- About the SQS server over the in-memory backend: sqs/server.rs, sqs/handler.rs and
-- storage/memory.rs together.
use Prim.Native.Char.{Char}
use lclq.Common.{ℕ, String, Bool, Option}
use lclq.Memory.Backend.{BackendReadings, clocked_backend}
use lclq.Memory.InFlight.Valid.{delete_message-IsValid, change_visibility-IsValid}
use lclq.Memory.Invariant.{IsValid}
use lclq.Memory.Queues.Valid.{
  create_queue-IsValid, update_queue-IsValid, delete_queue-IsValid, purge_queue-IsValid,
}
use lclq.Memory.Receive.Valid.{receive_messages-IsValid}
use lclq.Memory.Send.Valid.{send_message-IsValid}
use lclq.Memory.State.{InMemoryBackend}
use lclq.Receipt.{ReceiptCodec}
use lclq.Sqs.Handler.{Outside, Readings}
use lclq.Sqs.Handler.Calls.{KeepsPredicate}
use lclq.Sqs.Handler.Dispatch.{handle_sqs_request}
use lclq.Sqs.Handler.Dispatch.Kept.{handle_sqs_request-keeps}

module _ (codec : ReceiptCodec) (content_digest : String → String) (r : ℕ → BackendReadings) where
  clocked_backend-keeps :
      (is_alphanumeric : Char → Bool)
      → KeepsPredicate
          (clocked_backend codec content_digest r)
          is_alphanumeric
          (λ _. Unit)
          (λ s. IsValid (s.1))
  unfolding clocked_backend
  clocked_backend-keeps is_alphanumeric = record {
    create = λ own (n, b) config valid e v. create_queue-IsValid b config ((r n).creating) v;
    update = λ own (n, b) id config updated found u v. update_queue-IsValid b updated v;
    delete = λ own (n, b) id v. delete_queue-IsValid b id v;
    purge = λ own (n, b) id v. purge_queue-IsValid b id v;
    send = λ own (n, b) id m q c v. send_message-IsValid content_digest b id m ((r n).sending 0) v;
    receive = λ own (n, b) id options most v.
        receive_messages-IsValid codec b id options ((r n).receiving) v;
    acknowledge = λ own (n, b) id handle v. delete_message-IsValid codec b id handle v;
    change = λ own (n, b) id handle timeout most v.
        change_visibility-IsValid codec b id handle timeout ((r n).changing) v;
  }

  -- An HTTP request to the SQS server over the in-memory backend, whatever its body and its
  -- headers, leaves a well-formed backend well-formed.
  pub handle_sqs_request-IsValid :
      (outside : Outside) (readings : Readings) (base_url : String)
      (url_decode : String → Option String) (json_error : String) (body : Option String)
      (header : String → Option String) (s : ℕ × InMemoryBackend)
      → IsValid (s.1)
      → IsValid (
          ((handle_sqs_request
            (clocked_backend codec content_digest r)
            outside
            readings
            base_url
            url_decode
            json_error
            body
            header
            s).1
          ).1)
  handle_sqs_request-IsValid outside readings base_url url_decode json_error body header s =
      handle_sqs_request-keeps (clocked_backend codec content_digest r) outside readings base_url
        (λ s. IsValid (s.1)) (λ _. Unit) (clocked_backend-keeps outside.is_alphanumeric) url_decode
        json_error body header s (λ op. tt)
