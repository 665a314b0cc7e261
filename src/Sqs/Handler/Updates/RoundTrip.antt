-- ===== src/Sqs/Handler/Updates/RoundTrip.antt =====
-- About `GetQueueAttributes` and `SetQueueAttributes` of sqs/handler.rs together.
use lclq.Common.HashMap.{HashMap}
use lclq.Common.{ℕ, ◌≤◌, String, ◌≡◌, refl, ap, ◌∙◌, List, [], ◌∷◌, arith}
use lclq.Common.Decimal.{parse_unsigned, parse_unsigned-to_string}
use lclq.Common.Text.{to_string}
use lclq.Sqs.Handler.{Outside}
use lclq.Sqs.Handler.Attributes.{one_attribute, add_queue_attribute, add_attributes, add_named}
use lclq.Sqs.Handler.Updates.{
  max_u64, within, change, set_visibility_timeout, set_retention_period, set_max_message_size,
  set_delay_seconds, set_attribute, set_attributes,
}
use lclq.Sqs.Handler.Updates.Bounds.{IsInLimits}
use lclq.Sqs.Request.Batch.{max_u32}
use lclq.Sqs.Types.{success, attribute_from_str}
use lclq.Types.{DateTime, QueueConfig, QueueStats}

-- The names of the attributes that are numbers with limits.
abbrev pub limited_names : List String
limited_names =
    "VisibilityTimeout" ∷ "DelaySeconds" ∷ "MaximumMessageSize" ∷ "MessageRetentionPeriod" ∷ []

within-to_string :
    (low high bound n : ℕ) (message : String)
    → low ≤ n
    → n ≤ high
    → high ≤ bound
    → within low high message (parse_unsigned bound (to_string n)) ≡ success n
unfolding within
within-to_string low high bound n message l h b =
    rw (parse_unsigned-to_string bound n (omega (arith, h, b))) (ground arith)

set_attributes-cons :
    (outside : Outside) (key value_ : String) (rest : HashMap String) (config next : QueueConfig)
    → set_attribute outside config key value_ ≡ success next
    → set_attributes outside ((key, value_) ∷ rest) config ≡ set_attributes outside rest next
unfolding set_attributes
set_attributes-cons outside key value_ rest config next e = rw (set_attributes, e) refl

set_attributes-four :
    (outside : Outside) (k₁ k₂ k₃ k₄ v₁ v₂ v₃ v₄ : String) (c₀ c₁ c₂ c₃ c₄ : QueueConfig)
    → set_attribute outside c₀ k₁ v₁ ≡ success c₁
    → set_attribute outside c₁ k₂ v₂ ≡ success c₂
    → set_attribute outside c₂ k₃ v₃ ≡ success c₃
    → set_attribute outside c₃ k₄ v₄ ≡ success c₄
    → set_attributes outside ((k₁, v₁) ∷ (k₂, v₂) ∷ (k₃, v₃) ∷ (k₄, v₄) ∷ []) c₀ ≡ success c₄
unfolding set_attributes
set_attributes-four outside k₁ k₂ k₃ k₄ v₁ v₂ v₃ v₄ c₀ c₁ c₂ c₃ c₄ e₁ e₂ e₃ e₄ =
    set_attributes-cons outside k₁ v₁ ((k₂, v₂) ∷ (k₃, v₃) ∷ (k₄, v₄) ∷ []) c₀ c₁ e₁
    ∙ set_attributes-cons outside k₂ v₂ ((k₃, v₃) ∷ (k₄, v₄) ∷ []) c₁ c₂ e₂
    ∙ set_attributes-cons outside k₃ v₃ ((k₄, v₄) ∷ []) c₂ c₃ e₃
    ∙ set_attributes-cons outside k₄ v₄ [] c₃ c₄ e₄

set_visibility_timeout-to_string :
    (outside : Outside) (config : QueueConfig) (n : ℕ)
    → 0 ≤ n
    → n ≤ 43200
    → set_attribute outside config "VisibilityTimeout" (to_string n)
      ≡ success (record config { visibility_timeout = n })
unfolding set_attribute set_visibility_timeout
set_visibility_timeout-to_string outside config n low high =
    ap (change (λ k. record config { visibility_timeout = k })) (
      within-to_string 0 43200 max_u32 n "VisibilityTimeout must be between 0 and 43200 seconds" low
        high (omega arith))

set_delay_seconds-to_string :
    (outside : Outside) (config : QueueConfig) (n : ℕ)
    → 0 ≤ n
    → n ≤ 900
    → set_attribute outside config "DelaySeconds" (to_string n)
      ≡ success (record config { delay_seconds = n })
unfolding set_attribute set_delay_seconds
set_delay_seconds-to_string outside config n low high =
    ap (change (λ k. record config { delay_seconds = k })) (
      within-to_string 0 900 max_u32 n "DelaySeconds must be between 0 and 900 seconds" low high
        (omega arith))

set_max_message_size-to_string :
    (outside : Outside) (config : QueueConfig) (n : ℕ)
    → 1024 ≤ n
    → n ≤ 262144
    → set_attribute outside config "MaximumMessageSize" (to_string n)
      ≡ success (record config { max_message_size = n })
unfolding set_attribute set_max_message_size
set_max_message_size-to_string outside config n low high =
    ap (change (λ k. record config { max_message_size = k })) (
      within-to_string 1024 262144 max_u64 n
        "MaximumMessageSize must be between 1024 and 262144 bytes" low high (omega arith))

set_retention_period-to_string :
    (outside : Outside) (config : QueueConfig) (n : ℕ)
    → 60 ≤ n
    → n ≤ 1209600
    → set_attribute outside config "MessageRetentionPeriod" (to_string n)
      ≡ success (record config { message_retention_period = n })
unfolding set_attribute set_retention_period
set_retention_period-to_string outside config n low high =
    ap (change (λ k. record config { message_retention_period = k })) (
      within-to_string 60 1209600 max_u32 n
        "MessageRetentionPeriod must be between 60 and 1209600 seconds" low high (omega arith))

module _ (outside : Outside) (now : DateTime) (config other : QueueConfig)
    (stats : QueueStats) where
  rows :
      add_attributes now config stats limited_names []
      ≡ ("VisibilityTimeout", to_string config.visibility_timeout)
        ∷ ("DelaySeconds", to_string config.delay_seconds)
        ∷ ("MaximumMessageSize", to_string config.max_message_size)
        ∷ ("MessageRetentionPeriod", to_string config.message_retention_period)
        ∷ []
  unfolding add_attributes add_named attribute_from_str add_queue_attribute one_attribute
  rows = refl

  -- The rows that GetQueueAttributes writes for the visibility timeout, the delay, the maximum
  -- message size and the retention period of a configuration within the limits are accepted by
  -- SetQueueAttributes and give another configuration the same four values.
  pub set_attributes-add_attributes :
      IsInLimits config
      → set_attributes outside (add_attributes now config stats limited_names []) other
        ≡ success (record other {
          visibility_timeout = config.visibility_timeout;
          delay_seconds = config.delay_seconds;
          max_message_size = config.max_message_size;
          message_retention_period = config.message_retention_period;
        })
  set_attributes-add_attributes l =
      ap (λ r. set_attributes outside r other) rows
      ∙ set_attributes-four outside _ _ _ _ _ _ _ _ _ _ _ _ _
          (set_visibility_timeout-to_string outside _ _ (omega arith) l.visibility)
          (set_delay_seconds-to_string outside _ _ (omega arith) l.delay)
          (set_max_message_size-to_string outside _ _ (l.size.0) (l.size.1))
          (set_retention_period-to_string outside _ _ (l.retention.0) (l.retention.1))
