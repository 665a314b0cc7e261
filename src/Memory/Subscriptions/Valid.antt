-- ===== src/Memory/Subscriptions/Valid.antt =====
-- About the operations on subscriptions of storage/memory.rs and the well-formedness of the backend.
use lclq.Common.{String, ◌≡◌, refl, inl, inr, Bool-cases, Option-cases}
use lclq.Common.HashMap
use lclq.Common.HashMap.{insert-HasUniqueKeys, remove-HasUniqueKeys}
use lclq.Common.Entries.{AllEntries-insert, AllEntries-remove}
use lclq.Types.{SubscriptionConfig}
use lclq.Memory.State.{InMemoryBackend}
use lclq.Memory.Invariant.{IsValid}
use lclq.Memory.Subscriptions.{create_subscription, delete_subscription}

pub create_subscription-IsValid :
    (b : InMemoryBackend) (config : SubscriptionConfig)
    → IsValid b
    → IsValid (create_subscription b config).1
unfolding create_subscription
create_subscription-IsValid b config v =
    elim (Bool-cases (HashMap.contains_key config.id b.subscriptions)) [
      | inl e ↦ rw e v
      | inr e ↦ rw e (record {
        queues_valid = v.queues_valid;
        subscriptions_unique =
            insert-HasUniqueKeys config.id config b.subscriptions v.subscriptions_unique;
        subscription_ids =
            AllEntries-insert (λ id s. s.id ≡ id) config.id config b.subscriptions refl
              v.subscription_ids;
      })
    ]

pub delete_subscription-IsValid :
    (b : InMemoryBackend) (id : String) → IsValid b → IsValid (delete_subscription b id).1
unfolding delete_subscription
delete_subscription-IsValid b id v = elim (Option-cases (HashMap.get id b.subscriptions)) [
  | inl e ↦ rw (e, delete_subscription) v
  | inr (s, e) ↦
      rw (e, delete_subscription)
        (record {
          queues_valid = v.queues_valid;
          subscriptions_unique = remove-HasUniqueKeys id b.subscriptions v.subscriptions_unique;
          subscription_ids =
              AllEntries-remove (λ id s. s.id ≡ id) id b.subscriptions v.subscription_ids;
        })
]
