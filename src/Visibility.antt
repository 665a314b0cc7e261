-- ===== src/Visibility.antt =====
-- core/visibility.rs: the manager that returns expired messages in all queues, a client of a
-- storage backend. `backend i` is the backend as the call number `i` of a run finds the clock. The
-- loop of `start` makes such a run at each tick.
pub mod Complete
use lclq.Common.{ℕ, suc, String, List, [], ◌∷◌, Option, none}
use lclq.Error.{Error, Result, ok, err}
use lclq.Types.{QueueConfig}
use lclq.Storage.{QueueFilter, StorageBackend}

-- The count is only logged.
abbrev processed {ℓ κ} :
    {State : Type ℓ} {A : Type κ} → Result A × State → Result (Unit {0}) × State
processed (ok _, state) = (ok tt, state)
processed (err e, state) = (err e, state)

module _ {State : Type 0} (backend : ℕ → StorageBackend State) where
  pub process_queue_expired_visibility : ℕ → State → String → Result (Unit {0}) × State
  process_queue_expired_visibility i state queue_id =
      processed ((backend i).process_expired_visibility state queue_id)

  -- The loop over the queues: an error of one is logged and the next one follows.
  pub process_queues : ℕ → State → List QueueConfig → State
  unfolding process_queue_expired_visibility
  process_queues i state [] = state
  process_queues i state (queue ∷ queues) =
      process_queues (suc i) (process_queue_expired_visibility i state queue.id).1 queues

  process_listed : State → Result (List QueueConfig) → Result (Unit {0}) × State
  unfolding process_queues
  process_listed state (ok queues) = (ok tt, process_queues 1 state queues)
  process_listed state (err e) = (err e, state)

  unfoldable pub process_all_expired_visibility : State → Result (Unit {0}) × State
  unfolding process_listed
  process_all_expired_visibility state = process_listed state ((backend 0).list_queues state none)
