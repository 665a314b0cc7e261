-- ===== src/Sqs/Handler/Updates/Bounds.antt =====
-- About `SetQueueAttributes` of sqs/handler.rs: what the accepted changes of numbers keep.
use mathlib.Core.Path.{subst}
use lclq.Common.{
  ℕ, ◌≤◌, String, ◌≡◌, refl, ◌∙◌, ◌&&◌, inl, inr, Option, none, some, leb, arith, Bool-cases,
}
use lclq.Common.Decimal.{parse_unsigned}
use lclq.Sqs.Request.Batch.{max_u32}
use lclq.Sqs.Handler.{Outside}
use lclq.Sqs.Handler.Updates.{
  max_u64, within, change, set_visibility_timeout, set_retention_period, set_max_message_size,
  set_delay_seconds,
}
use lclq.Sqs.Types.{success}
use lclq.Types.{QueueConfig}

-- The limits of SQS on the attributes of a queue.
pub record IsInLimits (config : QueueConfig) : Type 0 where
  pub visibility : config.visibility_timeout ≤ 43200
  pub retention :
      (60 ≤ config.message_retention_period) × (config.message_retention_period ≤ 1209600)
  pub size : (1024 ≤ config.max_message_size) × (config.max_message_size ≤ 262144)
  pub delay : config.delay_seconds ≤ 900

-- A configuration of the same queue, in the limits if the first is.
pub record IsUpdateOf (config updated : QueueConfig) : Type 0 where
  pub same_id : updated.id ≡ config.id
  pub same_name : updated.name ≡ config.name
  pub same_type : updated.queue_type ≡ config.queue_type
  pub limits : IsInLimits config → IsInLimits updated

pub IsUpdateOf-refl : (config : QueueConfig) → IsUpdateOf config config
IsUpdateOf-refl config = record {
  same_id = refl;
  same_name = refl;
  same_type = refl;
  limits = λ l. l;
}

pub IsUpdateOf-trans : {a b c : QueueConfig} → IsUpdateOf a b → IsUpdateOf b c → IsUpdateOf a c
IsUpdateOf-trans u v = record {
  same_id = v.same_id ∙ u.same_id;
  same_name = v.same_name ∙ u.same_name;
  same_type = v.same_type ∙ u.same_type;
  limits = λ l. v.limits (u.limits l);
}

pub IsUpdateOf-success :
    {a b c : QueueConfig} → IsUpdateOf a b → success b ≡ success c → IsUpdateOf a c
IsUpdateOf-success {a} {b} {c} u e = let same : b ≡ c = cc in subst (IsUpdateOf a) same u

-- A number within limits, put into the configuration.
within-success :
    (low high : ℕ) (message : String) (f : ℕ → QueueConfig) (n : Option ℕ)
    (config updated : QueueConfig)
    → change f (within low high message n) ≡ success updated
    → ((k : ℕ) → low ≤ k → k ≤ high → IsUpdateOf config (f k))
    → IsUpdateOf config updated
unfolding within
within-success low high message f none config updated e h = absurd (ground arith)
within-success low high message f (some k) config updated e h =
    elim (Bool-cases (leb low k && leb k high)) [
      | inl t ↦ IsUpdateOf-success (h k (ground arith) (ground arith)) (ground arith)
      | inr t ↦ absurd (ground arith)
    ]

pub set_visibility_timeout-IsUpdateOf :
    (outside : Outside) (config : QueueConfig) (value : String) (updated : QueueConfig)
    → set_visibility_timeout outside config value ≡ success updated
    → IsUpdateOf config updated
unfolding set_visibility_timeout
set_visibility_timeout-IsUpdateOf outside config value updated e =
    within-success 0 43200 "VisibilityTimeout must be between 0 and 43200 seconds"
      (λ n. record config { visibility_timeout = n }) (parse_unsigned max_u32 value) config updated
      e
      λ k low high. record {
        same_id = refl;
        same_name = refl;
        same_type = refl;
        limits = λ l. record {
          visibility = high;
          retention = l.retention;
          size = l.size;
          delay = l.delay;
        };
      }

pub set_retention_period-IsUpdateOf :
    (outside : Outside) (config : QueueConfig) (value : String) (updated : QueueConfig)
    → set_retention_period outside config value ≡ success updated
    → IsUpdateOf config updated
unfolding set_retention_period
set_retention_period-IsUpdateOf outside config value updated e =
    within-success 60 1209600 "MessageRetentionPeriod must be between 60 and 1209600 seconds"
      (λ n. record config { message_retention_period = n }) (parse_unsigned max_u32 value) config
      updated e
      λ k low high. record {
        same_id = refl;
        same_name = refl;
        same_type = refl;
        limits = λ l. record {
          visibility = l.visibility;
          retention = (low, high);
          size = l.size;
          delay = l.delay;
        };
      }

pub set_max_message_size-IsUpdateOf :
    (outside : Outside) (config : QueueConfig) (value : String) (updated : QueueConfig)
    → set_max_message_size outside config value ≡ success updated
    → IsUpdateOf config updated
unfolding set_max_message_size
set_max_message_size-IsUpdateOf outside config value updated e =
    within-success 1024 262144 "MaximumMessageSize must be between 1024 and 262144 bytes"
      (λ n. record config { max_message_size = n }) (parse_unsigned max_u64 value) config updated e
      λ k low high. record {
        same_id = refl;
        same_name = refl;
        same_type = refl;
        limits = λ l. record {
          visibility = l.visibility;
          retention = l.retention;
          size = (low, high);
          delay = l.delay;
        };
      }

pub set_delay_seconds-IsUpdateOf :
    (outside : Outside) (config : QueueConfig) (value : String) (updated : QueueConfig)
    → set_delay_seconds outside config value ≡ success updated
    → IsUpdateOf config updated
unfolding set_delay_seconds
set_delay_seconds-IsUpdateOf outside config value updated e =
    within-success 0 900 "DelaySeconds must be between 0 and 900 seconds"
      (λ n. record config { delay_seconds = n }) (parse_unsigned max_u32 value) config updated e
      λ k low high. record {
        same_id = refl;
        same_name = refl;
        same_type = refl;
        limits = λ l. record {
          visibility = l.visibility;
          retention = l.retention;
          size = l.size;
          delay = high;
        };
      }
