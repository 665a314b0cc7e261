-- ===== src/Sqs/Handler/Updates.antt =====
-- sqs/handler.rs: `SetQueueAttributes`, whose changes are made one by one to a copy of the
-- configuration and reach the backend only if each is accepted.
pub mod Bounds
pub mod Changes
pub mod Kept
pub mod AllOrNothing
pub mod RoundTrip
use lclq.Common.{
  ℕ, ◌^◌, ◌-◌, String, Bool, true, false, ◌&&◌, List, [], ◌∷◌, Option, none, some, leb, str_eq,
  if◌then◌else◌,
}
use lclq.Common.Decimal.{parse_unsigned}
use lclq.Common.HashMap.{HashMap}
use lclq.Error.{Result, ok, err}
use lclq.Error.Display.{error_text}
use lclq.Sqs.Handler.{Outside, Readings, refuse, with_queue, on_config}
use lclq.Sqs.Handler.Policies.{set_dlq_config, permission_of}
use lclq.Sqs.Json.{SerdeJson, Value, as_str, index}
use lclq.Sqs.Request.{SqsRequest, parse_queue_attributes}
use lclq.Sqs.Request.Batch.{max_u32}
use lclq.Sqs.Response.{build_delete_message_response}
use lclq.Sqs.Types.{Attempt, success, failure, invalid_parameter_value, internal_error}
use lclq.Storage.{StorageBackend}
use lclq.Types.{
  DlqConfig, QueueConfig, QueueType, sqs_standard, sqs_fifo, pub_sub_topic, RedrivePermission,
}

abbrev pub max_u64 : ℕ
max_u64 = 2 ^ 64 - 1

-- A parsed number within limits, or the message of the refusal.
within : (low high : ℕ) → (message : String) → Option ℕ → Attempt ℕ
within low high message none = failure message
within low high message (some n) = if leb low n && leb n high then success n else failure message

-- What a successful check changes.
abbrev change {ℓ} : {A : Type ℓ} → (A → QueueConfig) → Attempt A → Attempt QueueConfig
change f (success a) = success (f a)
change f (failure e) = failure e

module _ (outside : Outside) where
  pub set_visibility_timeout : QueueConfig → (value : String) → Attempt QueueConfig
  unfolding within
  set_visibility_timeout config value =
      change (λ n. record config { visibility_timeout = n })
        (within 0 43200 "VisibilityTimeout must be between 0 and 43200 seconds"
          (parse_unsigned max_u32 value))

  pub set_retention_period : QueueConfig → (value : String) → Attempt QueueConfig
  unfolding within
  set_retention_period config value =
      change (λ n. record config { message_retention_period = n })
        (within 60 1209600 "MessageRetentionPeriod must be between 60 and 1209600 seconds"
          (parse_unsigned max_u32 value))

  pub set_max_message_size : QueueConfig → (value : String) → Attempt QueueConfig
  unfolding within
  set_max_message_size config value =
      change (λ n. record config { max_message_size = n })
        (within 1024 262144 "MaximumMessageSize must be between 1024 and 262144 bytes"
          (parse_unsigned max_u64 value))

  pub set_delay_seconds : QueueConfig → (value : String) → Attempt QueueConfig
  unfolding within
  set_delay_seconds config value =
      change (λ n. record config { delay_seconds = n })
        (within 0 900 "DelaySeconds must be between 0 and 900 seconds"
          (parse_unsigned max_u32 value))

  set_deduplication : QueueType → QueueConfig → (lowered : String) → Attempt QueueConfig
  set_deduplication sqs_fifo config lowered =
      if str_eq lowered "true"
      then success (record config { content_based_deduplication = true })
      else if str_eq lowered "false"
      then success (record config { content_based_deduplication = false })
      else failure "ContentBasedDeduplication must be 'true' or 'false'"
  set_deduplication _ config lowered =
      failure "ContentBasedDeduplication is only valid for FIFO queues"

  unfoldable pub set_dlq : QueueConfig → Option DlqConfig → Attempt QueueConfig
  set_dlq config none = failure "Invalid RedrivePolicy format"
  set_dlq config (some dlq) = success (record config { dlq_config = some dlq })

  unfoldable pub set_redrive_policy : QueueConfig → (policy : Option Value) → Attempt QueueConfig
  unfolding set_dlq
  set_redrive_policy config none = failure "Invalid RedrivePolicy JSON"
  set_redrive_policy config (some policy) = set_dlq config (set_dlq_config policy)

  set_permission : QueueConfig → Option RedrivePermission → Attempt QueueConfig
  set_permission config none =
      failure "Invalid redrivePermission value (must be allowAll, denyAll, or byQueue)"
  set_permission config (some p) =
      success (record config { redrive_allow_policy = some (record { permission = p }) })

  set_named_permission : QueueConfig → Value → Option String → Attempt QueueConfig
  unfolding set_permission
  set_named_permission config policy none =
      failure "Missing redrivePermission in RedriveAllowPolicy"
  set_named_permission config policy (some name) = set_permission config (permission_of name policy)

  set_redrive_allow_policy : QueueConfig → (policy : Option Value) → Attempt QueueConfig
  unfolding set_named_permission
  set_redrive_allow_policy config none = failure "Invalid RedriveAllowPolicy JSON"
  set_redrive_allow_policy config (some policy) =
      set_named_permission config policy (as_str (index policy "redrivePermission"))

  -- The match on the name of an attribute, in two halves; an unknown one is ignored.
  unfoldable pub set_other : QueueConfig → (key value : String) → Attempt QueueConfig
  unfolding set_deduplication set_redrive_policy set_redrive_allow_policy
  set_other config key value =
      if str_eq key "ContentBasedDeduplication"
      then set_deduplication config.queue_type config (outside.to_lowercase value)
      else if str_eq key "RedrivePolicy"
      then set_redrive_policy config (outside.serde.from_str value)
      else if str_eq key "RedriveAllowPolicy"
      then set_redrive_allow_policy config (outside.serde.from_str value)
      else if str_eq key "FifoQueue"
      then failure "FifoQueue attribute cannot be modified"
      else success config

  unfoldable pub set_attribute : QueueConfig → (key value : String) → Attempt QueueConfig
  unfolding set_visibility_timeout set_retention_period set_max_message_size set_delay_seconds
      set_other
  set_attribute config key value =
      if str_eq key "VisibilityTimeout"
      then set_visibility_timeout config value
      else if str_eq key "MessageRetentionPeriod"
      then set_retention_period config value
      else if str_eq key "MaximumMessageSize"
      then set_max_message_size config value
      else if str_eq key "DelaySeconds"
      then set_delay_seconds config value
      else set_other config key value

  -- The loop over the attributes, which returns at the first refusal.
  unfoldable pub set_attributes : HashMap String → QueueConfig → Attempt QueueConfig
  set_attributes [] config = success config
  set_attributes ((key, value) ∷ rest) config = elim (set_attribute config key value) [
    | failure e ↦ failure e
    | success next ↦ set_attributes rest next
  ]

module _ {State : Type 0} (backend : StorageBackend State) (outside : Outside)
    (readings : Readings) where
  updated : Result QueueConfig × State → String × State
  updated (ok _, s) = (build_delete_message_response readings.request_id, s)
  updated (err e, s) = refuse internal_error (error_text e) readings.request_id s

  update : Attempt QueueConfig → State → String × State
  unfolding updated
  update (failure e) s = refuse invalid_parameter_value e readings.request_id s
  update (success config) s = updated (backend.update_queue s config)

  unfoldable pub handle_set_queue_attributes : SqsRequest → State → String × State
  unfolding update
  handle_set_queue_attributes request s = with_queue request readings.request_id s λ queue_name.
      on_config readings.request_id s
        (λ config. update (set_attributes outside (parse_queue_attributes request) config) s)
        (backend.get_queue s queue_name)
