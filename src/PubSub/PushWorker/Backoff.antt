-- ===== src/PubSub/PushWorker/Backoff.antt =====
-- About the retries of pubsub/push_worker.rs.
use native.Mathlib.Nat.{min-eq_left, min-eq_right}
use lclq.Common.{
  ℕ, zero, suc, ◌+◌, ◌*◌, ◌^◌, ◌≤◌, ◌<◌, min, ◌≡◌, refl, ◌⊎◌, inl, inr, none, some, arith, leb,
  leb→le, leb→lt, Bool-cases, if◌then◌else◌,
}
use lclq.Common.Word.{u32_max, next_u32}
use lclq.Types.{DateTime, seconds, RetryPolicy}
use lclq.PubSub.PushQueue.{DeliveryTask}
use lclq.PubSub.PushWorker.{backoff_secs, calculate_retry}

le_or_lt : (p m : ℕ) → (p ≤ m) ⊎ (m < p)
le_or_lt p m = elim (Bool-cases (leb p m)) [
  | inl e ↦ inl (leb→le p m e)
  | inr e ↦ inr (leb→lt p m e)
]

lt_to_le : {m p : ℕ} → m < p → m ≤ p
lt_to_le h = omega arith

pub next_small : (n : ℕ) → n < u32_max → next_u32 n ≡ n + 1
next_small n h = omega arith

-- The saturating product is capped like the exact one.
min_of_saturated :
    (a p m : ℕ) → m ≤ u32_max → min (min (a * min p u32_max) u32_max) m ≡ min (a * p) m
min_of_saturated zero p m h = omega arith
min_of_saturated (suc a) p m h = elim (le_or_lt p u32_max) [
  | inl le ↦ rw (min-eq_left le) (omega arith)
  | inr gt ↦ rw (min-eq_right (lt_to_le gt)) (omega arith)
]

-- The delay is the exact `min * 2^attempt`, capped at the policy's maximum: the saturation of the
-- `u32` arithmetic never shows.
backoff_secs_exact :
    (policy : RetryPolicy) (attempt : ℕ)
    → policy.max_backoff_seconds ≤ u32_max
    → backoff_secs policy attempt
      ≡ min (policy.min_backoff_seconds * 2 ^ attempt) policy.max_backoff_seconds
unfolding backoff_secs
backoff_secs_exact policy attempt h =
    min_of_saturated policy.min_backoff_seconds (2 ^ attempt) policy.max_backoff_seconds h

-- For u32 values whose attempt count can be increased, the retry is none from the policy's maximum
-- of attempts on, and else is scheduled after exactly min(min_backoff * 2^attempt, max_backoff)
-- seconds: the saturation of the arithmetic never shows.
pub calculate_retry_lem :
    (task : DeliveryTask) (policy : RetryPolicy) (now : DateTime)
    → task.attempt < u32_max
    → policy.max_backoff_seconds ≤ u32_max
    → calculate_retry task policy now ≡ (
        if leb policy.max_attempts (task.attempt + 1)
        then none
        else some (record task {
          attempt = task.attempt + 1;
          scheduled_time =
              now
              + seconds
                  (min (policy.min_backoff_seconds * 2 ^ task.attempt) policy.max_backoff_seconds);
        }))
unfolding calculate_retry
calculate_retry_lem task policy now small cap =
    rw (backoff_secs_exact policy task.attempt cap, next_small task.attempt small, calculate_retry)
      refl
