-- ===== src/PubSub/Subscriber/Service/Orphans.antt =====
-- About `delete_subscription` of pubsub/subscriber.rs over the in-memory backend, where no
-- subscription has the name.
use lclq.Common.{ℕ, String, ◌≡◌, refl, inl, inr, List, Option, none, Option-cases}
use lclq.Common.HashMap
use lclq.Common.HashMap.{get-remove_self}
use lclq.Error.{ok, err, subscription_not_found}
use lclq.Memory.Backend.{BackendReadings, memory_backend}
use lclq.Memory.Queues.{delete_queue}
use lclq.Memory.State.{InMemoryBackend}
use lclq.Memory.Subscriptions
use lclq.PubSub.Names.{ResourceName, parse}
use lclq.PubSub.Publisher.{backend_id}
use lclq.PubSub.Publisher.Service.{absent, on_name}
use lclq.PubSub.Subscriber.Service.{with_id, deleted, delete_subscription}
use lclq.Receipt.{ReceiptCodec}

queue_is_gone :
    (b : InMemoryBackend) (id : String) → HashMap.get id ((delete_queue b id).1).queues ≡ none
unfolding delete_queue
queue_is_gone b id = elim (Option-cases (HashMap.get id b.queues)) [
  | inl e ↦ rw (delete_queue, e) e
  | inr (q, e) ↦ rw (delete_queue, e) (get-remove_self id b.queues)
]

same_subscriptions :
    (b : InMemoryBackend) (id : String) → ((delete_queue b id).1).subscriptions ≡ b.subscriptions
unfolding delete_queue
same_subscriptions b id = elim (Option-cases (HashMap.get id b.queues)) [
  | inl e ↦ rw (delete_queue, e) refl
  | inr (q, e) ↦ rw (delete_queue, e) refl
]

delete_absent :
    (b : InMemoryBackend) (id : String)
    → HashMap.get id b.subscriptions ≡ none
    → Subscriptions.delete_subscription b id ≡ (err (subscription_not_found id), b)
unfolding Subscriptions.delete_subscription
delete_absent b id e = rw (Subscriptions.delete_subscription, e) refl

-- Over the in-memory backend, deleting a subscription that does not exist, by a well-formed name,
-- is answered as not found, and no queue with the ID of that name is left.
pub delete_subscription-absent :
    (codec : ReceiptCodec) (content_digest : String → String) (r : BackendReadings)
    (decode_base64 : String → Option (List ℕ)) (name : String) (n : ResourceName)
    (b : InMemoryBackend)
    → parse name ≡ ok n
    → HashMap.get (backend_id n) b.subscriptions ≡ none
    → ((delete_subscription (memory_backend codec content_digest r) decode_base64 name b).0
        ≡ absent "Subscription" name)
      × (HashMap.get
            (backend_id n)
            ((delete_subscription (memory_backend codec content_digest r) decode_base64 name b).1
              ).queues
          ≡ none)
unfolding delete_subscription with_id on_name deleted
delete_subscription-absent codec content_digest r decode_base64 name n b p none_there =
    let gone =
      delete_absent ((delete_queue b (backend_id n)).1) (backend_id n)
        (rw (same_subscriptions b (backend_id n)) none_there) in
    (rw (p, gone) refl, rw (p, gone) (queue_is_gone b (backend_id n)))
