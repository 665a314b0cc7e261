-- ===== src/Sqs/Handler/Calls.antt =====
-- About the calls that the actions of sqs/handler.rs make to the backend.
use Prim.Native.Char.{Char}
use lclq.Common.{
  ℕ, suc, ◌≤◌, String, ◌≡◌, refl, Bool, inl, inr, List, [], ◌∷◌, Option, none, some, ltb, ◌==◌,
  Bool-cases, length,
}
use lclq.Error.{Result, ok, err}
use lclq.Sqs.Handler.{on_value, required, on_name, queue_of_url, with_queue, on_config}
use lclq.Sqs.Handler.Batches.{Outcome, process, with_entries}
use lclq.Sqs.Handler.Updates.Bounds.{IsUpdateOf}
use lclq.Sqs.Request.{SqsRequest, get_required_param, extract_queue_name_from_url}
use lclq.Sqs.Types.{Attempt, success, failure}
use lclq.Storage.{StorageBackend}
use lclq.Types.{Message, QueueConfig, ReceiveOptions}
use lclq.Validation.{validate_sqs_queue_name}

-- The operations of the backend that change its state and that the handler calls.
pub data Operation : Type 0 where
  creates updates deletes purges sends receives acknowledges changes : Operation

-- A predicate that some operations of a backend keep, each under what the handler grants of its
-- call.
pub record KeepsPredicate {State : Type 0} (backend : StorageBackend State)
    (is_alphanumeric : Char → Bool) (Own : Operation → Type 0) (I : State → Type 0) : Type 0 where
  pub create :
      Own creates
      → (s : State) (config : QueueConfig)
      → validate_sqs_queue_name is_alphanumeric config.name ≡ ok tt
      → config.id ≡ config.name
      → I s
      → I ((backend.create_queue s config).1)
  pub update :
      Own updates
      → (s : State) (id : String) (config updated : QueueConfig)
      → backend.get_queue s id ≡ ok config
      → IsUpdateOf config updated
      → I s
      → I ((backend.update_queue s updated).1)
  pub delete : Own deletes → (s : State) (id : String) → I s → I ((backend.delete_queue s id).1)
  pub purge : Own purges → (s : State) (id : String) → I s → I ((backend.purge_queue s id).1)
  pub send :
      Own sends
      → (s : State) (id : String) (m : Message) → m.queue_id ≡ id
      → m.receive_count ≡ 0
      → I s
      → I ((backend.send_message s id m).1)
  pub receive :
      Own receives
      → (s : State) (id : String) (options : ReceiveOptions) → options.max_messages ≤ 10
      → I s
      → I ((backend.receive_messages s id options).1)
  pub acknowledge :
      Own acknowledges
      → (s : State) (id handle : String) → I s
      → I ((backend.delete_message s id handle).1)
  pub change :
      Own changes
      → (s : State) (id handle : String) (timeout : ℕ) → timeout ≤ 43200
      → I s
      → I ((backend.change_visibility s id handle timeout).1)

module _ {State : Type 0} (I : State → Type 0) where
  on_value-keeps :
      (request_id : String) (s : State) (next : String → String × State) (value : Attempt String)
      → I s
      → ((v : String) → I ((next v).1))
      → I ((on_value request_id s next value).1)
  unfolding on_value
  on_value-keeps request_id s next (success v) i h = h v
  on_value-keeps request_id s next (failure e) i h = i

  pub required-keeps :
      (request : SqsRequest) (request_id key : String) (s : State) (next : String → String × State)
      → I s
      → ((value : String) → I ((next value).1))
      → I ((required request request_id key s next).1)
  unfolding required
  required-keeps request request_id key s next =
      on_value-keeps request_id s next (get_required_param request key)

  on_name-keeps :
      (request_id : String) (s : State) (next : String → String × State) (name : Option String)
      → I s
      → ((queue_name : String) → I ((next queue_name).1))
      → I ((on_name request_id s next name).1)
  unfolding on_name
  on_name-keeps request_id s next none i h = i
  on_name-keeps request_id s next (some queue_name) i h = h queue_name

  pub queue_of_url-keeps :
      (request_id queue_url : String) (s : State) (next : String → String × State)
      → I s
      → ((queue_name : String) → I ((next queue_name).1))
      → I ((queue_of_url request_id queue_url s next).1)
  unfolding queue_of_url
  queue_of_url-keeps request_id queue_url s next =
      on_name-keeps request_id s next (extract_queue_name_from_url queue_url)

  pub with_queue-keeps :
      (request : SqsRequest) (request_id : String) (s : State) (next : String → String × State)
      → I s
      → ((queue_name : String) → I ((next queue_name).1))
      → I ((with_queue request request_id s next).1)
  unfolding with_queue
  with_queue-keeps request request_id s next i h =
      required-keeps request request_id "QueueUrl" s _ i
        λ queue_url. queue_of_url-keeps request_id queue_url s next i h

  pub on_config-keeps :
      (request_id : String) (s : State) (next : QueueConfig → String × State)
      (found : Result QueueConfig)
      → I s
      → ((config : QueueConfig) → found ≡ ok config → I ((next config).1))
      → I ((on_config request_id s next found).1)
  unfolding on_config
  on_config-keeps request_id s next (err e) i h = i
  on_config-keeps request_id s next (ok config) i h = h config refl

  pub process-keeps {ℓ κ} :
      {Entry : Type ℓ} {R : Type κ} (one : ℕ → Entry → State → Outcome R × State)
      → ((k : ℕ) (entry : Entry) (s : State) → I s → I ((one k entry s).1))
      → (k : ℕ) (entries : List Entry) (s : State) → I s
      → I ((process one k entries s).1)
  unfolding process
  process-keeps one h k [] s i = i
  process-keeps one h k (entry ∷ rest) s i =
      process-keeps one h (suc k) rest ((one k entry s).1) (h k entry s i)

  pub with_entries-keeps {ℓ} :
      {Entry : Type ℓ} (request_id : String) (entries : List Entry) (s : State)
      (next : List Entry → String × State)
      → I s
      → I ((next entries).1)
      → I ((with_entries request_id entries s next).1)
  unfolding with_entries
  with_entries-keeps request_id entries s next i h = elim (Bool-cases (length entries == 0)) [
    | inl t ↦ rw t i
    | inr t ↦ elim (Bool-cases (ltb 10 (length entries))) [
      | inl u ↦ rw (t, u) i
      | inr u ↦ rw (t, u) h
    ]
  ]
