-- ===== src/Storage.antt =====
-- storage/mod.rs: what the backends exchange with their callers, and the trait itself as a record
-- of operations on the state of a backend.
use lclq.Common.{ℕ, String, Option, List}
use lclq.Error.{Result}
use lclq.Types.{Message, QueueConfig, QueueStats, ReceiveOptions, SubscriptionConfig}

pub record QueueFilter : Type 0 where
  pub name_prefix : Option String

pub record ReceivedMessage : Type 0 where
  pub message : Message
  pub receipt_handle : String

pub data HealthStatus : Type 0 where
  healthy : HealthStatus
  unhealthy : String → HealthStatus

pub record StorageBackend (State : Type 0) : Type 0 where
  pub create_queue : State → QueueConfig → Result QueueConfig × State
  pub get_queue : State → (id : String) → Result QueueConfig
  pub delete_queue : State → (id : String) → Result (Unit {0}) × State
  pub list_queues : State → Option QueueFilter → Result (List QueueConfig)
  pub update_queue : State → QueueConfig → Result QueueConfig × State
  pub send_message : State → (queue_id : String) → Message → Result Message × State
  pub send_messages : State → (queue_id : String) → List Message → Result (List Message) × State
  pub receive_messages :
      State → (queue_id : String) → ReceiveOptions → Result (List ReceivedMessage) × State
  pub delete_message :
      State → (queue_id : String) → (receipt_handle : String) → Result (Unit {0}) × State
  pub change_visibility :
      State
      → (queue_id : String) → (receipt_handle : String) → (visibility_timeout : ℕ)
      → Result (Unit {0}) × State
  pub purge_queue : State → (queue_id : String) → Result (Unit {0}) × State
  pub get_stats : State → (queue_id : String) → Result QueueStats
  pub create_subscription : State → SubscriptionConfig → Result SubscriptionConfig × State
  pub get_subscription : State → (id : String) → Result SubscriptionConfig
  pub delete_subscription : State → (id : String) → Result (Unit {0}) × State
  pub list_subscriptions : State → Result (List SubscriptionConfig)
  pub health_check : State → Result HealthStatus
  pub process_expired_visibility : State → (queue_id : String) → Result ℕ × State
