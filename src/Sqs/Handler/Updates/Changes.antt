-- ===== src/Sqs/Handler/Updates/Changes.antt =====
-- About `SetQueueAttributes` of sqs/handler.rs: what the accepted changes keep, taken together.
use lclq.Common.{
  String, ◌≡◌, refl, true, false, inl, inr, [], ◌∷◌, Option, none, some, arith, Option-cases,
}
use lclq.Common.HashMap.{HashMap}
use lclq.Sqs.Handler.Policies.{set_dlq_config, permission_of}
use lclq.Sqs.Handler.{Outside}
use lclq.Sqs.Handler.Updates.{
  set_deduplication, set_dlq, set_redrive_policy, set_permission, set_named_permission,
  set_redrive_allow_policy, set_other, set_attribute, set_attributes,
}
use lclq.Sqs.Json.{Value}
use lclq.Sqs.Types.{success, Attempt-cases}
use lclq.Types.{QueueConfig, QueueType, sqs_standard, sqs_fifo, pub_sub_topic}
use lclq.Sqs.Handler.Updates.Bounds.{
  IsUpdateOf, IsUpdateOf-trans, IsUpdateOf-success, set_visibility_timeout-IsUpdateOf,
  set_retention_period-IsUpdateOf, set_max_message_size-IsUpdateOf, set_delay_seconds-IsUpdateOf,
}

-- A change of a field that has no limits.
unlimited :
    (config next updated : QueueConfig)
    → (next.id ≡ config.id)
      × (next.name ≡ config.name)
      × (next.queue_type ≡ config.queue_type)
      × (next.visibility_timeout ≡ config.visibility_timeout)
      × (next.message_retention_period ≡ config.message_retention_period)
      × (next.max_message_size ≡ config.max_message_size)
      × (next.delay_seconds ≡ config.delay_seconds)
    → success next ≡ success updated
    → IsUpdateOf config updated
unlimited config next updated (i, n, t, v, r, m, d) = IsUpdateOf-success (record {
  same_id = i;
  same_name = n;
  same_type = t;
  limits = λ l. record {
    visibility = rw v l.visibility;
    retention = rw r l.retention;
    size = rw m l.size;
    delay = rw d l.delay;
  };
})

set_deduplication-IsUpdateOf :
    (outside : Outside) (t : QueueType) (config : QueueConfig) (lowered : String)
    (updated : QueueConfig)
    → set_deduplication outside t config lowered ≡ success updated
    → IsUpdateOf config updated
unfolding set_deduplication
set_deduplication-IsUpdateOf outside sqs_fifo config lowered updated e = ground (
  arith,
  unlimited config (record config { content_based_deduplication = true }) updated
      (refl, refl, refl, refl, refl, refl, refl),
  unlimited config (record config { content_based_deduplication = false }) updated
      (refl, refl, refl, refl, refl, refl, refl),
)
set_deduplication-IsUpdateOf outside sqs_standard config lowered updated e = absurd (ground arith)
set_deduplication-IsUpdateOf outside pub_sub_topic config lowered updated e = absurd (ground arith)

set_redrive_policy-IsUpdateOf :
    (outside : Outside) (config : QueueConfig) (policy : Option Value) (updated : QueueConfig)
    → set_redrive_policy outside config policy ≡ success updated
    → IsUpdateOf config updated
unfolding set_redrive_policy set_dlq
set_redrive_policy-IsUpdateOf outside config none updated e = absurd (ground arith)
set_redrive_policy-IsUpdateOf outside config (some policy) updated e =
    elim (Option-cases (set_dlq_config policy)) [
      | inl n ↦ absurd (ground arith)
      | inr (dlq, found) ↦
          unlimited config (record config { dlq_config = some dlq }) updated
            (refl, refl, refl, refl, refl, refl, refl) (ground arith)
    ]

set_named_permission-IsUpdateOf :
    (outside : Outside) (config : QueueConfig) (policy : Value) (name : Option String)
    (updated : QueueConfig)
    → set_named_permission outside config policy name ≡ success updated
    → IsUpdateOf config updated
unfolding set_named_permission set_permission
set_named_permission-IsUpdateOf outside config policy none updated e = absurd (ground arith)
set_named_permission-IsUpdateOf outside config policy (some name) updated e =
    elim (Option-cases (permission_of name policy)) [
      | inl n ↦ absurd (ground arith)
      | inr (p, found) ↦
          unlimited config
            (record config { redrive_allow_policy = some (record { permission = p }) }) updated
            (refl, refl, refl, refl, refl, refl, refl) (ground arith)
    ]

set_redrive_allow_policy-IsUpdateOf :
    (outside : Outside) (config : QueueConfig) (policy : Option Value) (updated : QueueConfig)
    → set_redrive_allow_policy outside config policy ≡ success updated
    → IsUpdateOf config updated
unfolding set_redrive_allow_policy
set_redrive_allow_policy-IsUpdateOf outside config none updated e = absurd (ground arith)
set_redrive_allow_policy-IsUpdateOf outside config (some policy) updated e =
    set_named_permission-IsUpdateOf outside config policy _ updated e

set_other-IsUpdateOf :
    (outside : Outside) (config : QueueConfig) (key value : String) (updated : QueueConfig)
    → set_other outside config key value ≡ success updated
    → IsUpdateOf config updated
unfolding set_other
set_other-IsUpdateOf outside config key value updated e = ground (
  arith,
  set_deduplication-IsUpdateOf outside config.queue_type config (outside.to_lowercase value)
      updated,
  set_redrive_policy-IsUpdateOf outside config (outside.serde.from_str value) updated,
  set_redrive_allow_policy-IsUpdateOf outside config (outside.serde.from_str value) updated,
  unlimited config config updated (refl, refl, refl, refl, refl, refl, refl),
)

set_attribute-IsUpdateOf :
    (outside : Outside) (config : QueueConfig) (key value : String) (updated : QueueConfig)
    → set_attribute outside config key value ≡ success updated
    → IsUpdateOf config updated
unfolding set_attribute
set_attribute-IsUpdateOf outside config key value updated e = ground (
  arith,
  set_visibility_timeout-IsUpdateOf outside config value updated,
  set_retention_period-IsUpdateOf outside config value updated,
  set_max_message_size-IsUpdateOf outside config value updated,
  set_delay_seconds-IsUpdateOf outside config value updated,
  set_other-IsUpdateOf outside config key value updated,
)

-- All accepted attributes of a request.
pub set_attributes-IsUpdateOf :
    (outside : Outside) (attributes : HashMap String) (config updated : QueueConfig)
    → set_attributes outside attributes config ≡ success updated
    → IsUpdateOf config updated
unfolding set_attributes
set_attributes-IsUpdateOf outside [] config updated e =
    unlimited config config updated (refl, refl, refl, refl, refl, refl, refl) e
set_attributes-IsUpdateOf outside ((key, value) ∷ rest) config updated e =
    elim (Attempt-cases (set_attribute outside config key value)) [
      | inl (next, accepted) ↦
          IsUpdateOf-trans (set_attribute-IsUpdateOf outside config key value next accepted)
            (set_attributes-IsUpdateOf outside rest next updated (ground arith))
      | inr (message, refused) ↦ absurd (ground arith)
    ]
