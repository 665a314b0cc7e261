-- ===== src/Memory/Subscriptions.antt =====
-- storage/memory.rs: the subscriptions, behind a lock of their own, and `health_check`.
pub mod Valid
use lclq.Common.{String, List, Option, none, some, if◌then◌else◌}
use lclq.Common.Text.{◌<>◌}
use lclq.Common.HashMap
use lclq.Common.HashMap.{values}
use lclq.Error.{storage_error, subscription_not_found, Result, ok, err, ok_or}
use lclq.Types.{SubscriptionConfig}
use lclq.Storage.{HealthStatus, healthy}
use lclq.Memory.State.{InMemoryBackend}

unfoldable pub create_subscription :
    InMemoryBackend → SubscriptionConfig → Result SubscriptionConfig × InMemoryBackend
create_subscription b config =
    if HashMap.contains_key config.id b.subscriptions
    then (err (storage_error ("Subscription " <> config.id <> " already exists")), b)
    else (ok config, record b { subscriptions = HashMap.insert config.id config b.subscriptions })

unfoldable pub get_subscription : InMemoryBackend → String → Result SubscriptionConfig
get_subscription b id = ok_or (HashMap.get id b.subscriptions) (subscription_not_found id)

unfoldable pub delete_subscription : InMemoryBackend → String → Result (Unit {0}) × InMemoryBackend
delete_subscription b id = elim (HashMap.get id b.subscriptions) [
  | none ↦ (err (subscription_not_found id), b)
  | some _ ↦ (ok tt, record b { subscriptions = HashMap.remove id b.subscriptions })
]

unfoldable pub list_subscriptions : InMemoryBackend → Result (List SubscriptionConfig)
list_subscriptions b = ok (values b.subscriptions)

unfoldable pub health_check : InMemoryBackend → Result HealthStatus
health_check b = ok healthy
