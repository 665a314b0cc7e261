-- ===== src/Sqs/Handler/Updates/AllOrNothing.antt =====
-- About `SetQueueAttributes` of sqs/handler.rs: what becomes of the backend.
use lclq.Common.{String, ◌≡◌, refl, ◌⊎◌, inl, inr}
use lclq.Error.{Result, ok, err}
use lclq.Sqs.Handler.{Outside, Readings}
use lclq.Sqs.Handler.Calls.{with_queue-keeps, on_config-keeps}
use lclq.Sqs.Handler.Updates.{set_attributes, updated, update, handle_set_queue_attributes}
use lclq.Sqs.Handler.Updates.Bounds.{IsUpdateOf}
use lclq.Sqs.Handler.Updates.Changes.{set_attributes-IsUpdateOf}
use lclq.Sqs.Request.{SqsRequest, parse_queue_attributes}
use lclq.Sqs.Types.{Attempt, success, failure}
use lclq.Storage.{StorageBackend}
use lclq.Types.{QueueConfig}

module _ {State : Type 0} (backend : StorageBackend State) (outside : Outside)
    (readings : Readings) where
  -- The state after an update of the stored configuration that all attributes of a request gave.
  pub record IsFullUpdate (request : SqsRequest) (s next : State) : Type 0 where
    pub name : String
    pub config : QueueConfig
    pub changed : QueueConfig
    pub found : backend.get_queue s name ≡ ok config
    pub accepted : set_attributes outside (parse_queue_attributes request) config ≡ success changed
    pub within_limits : IsUpdateOf config changed
    pub stored : next ≡ (backend.update_queue s changed).1

  updated-state : (x : Result QueueConfig × State) → (updated backend outside readings x).1 ≡ x.1
  unfolding updated
  updated-state (ok config, s) = refl
  updated-state (err e, s) = refl

  update-cases :
      (request : SqsRequest) (s : State) (queue_name : String) (stored_config : QueueConfig)
      (result : Attempt QueueConfig)
      → backend.get_queue s queue_name ≡ ok stored_config
      → set_attributes outside (parse_queue_attributes request) stored_config ≡ result
      → ((update backend outside readings result s).1 ≡ s)
        ⊎ IsFullUpdate request s ((update backend outside readings result s).1)
  unfolding update
  update-cases request s queue_name stored_config (failure e) f a = inl refl
  update-cases request s queue_name stored_config (success next) f a = inr (record {
    name = queue_name;
    config = stored_config;
    changed = next;
    found = f;
    accepted = a;
    within_limits =
        set_attributes-IsUpdateOf outside (parse_queue_attributes request) stored_config next a;
    stored = updated-state _;
  })

  -- After SetQueueAttributes the state is as before, or it is one update of a stored configuration
  -- to which all attributes of the request were applied and accepted, with the same ID, name and
  -- type, and within the limits of the attributes if the stored one was.
  pub handle_set_queue_attributes-all_or_nothing :
      (request : SqsRequest) (s : State)
      → ((handle_set_queue_attributes backend outside readings request s).1 ≡ s)
        ⊎ IsFullUpdate request s
            ((handle_set_queue_attributes backend outside readings request s).1)
  unfolding handle_set_queue_attributes
  handle_set_queue_attributes-all_or_nothing request s =
      let Outcome : State → Type 0 = λ next. (next ≡ s) ⊎ IsFullUpdate request s next in
      with_queue-keeps Outcome request readings.request_id s _ (inl refl) λ queue_name.
        on_config-keeps Outcome readings.request_id s _ _ (inl refl)
          λ config found. update-cases request s queue_name config _ found refl
