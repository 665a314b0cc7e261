-- ===== src/Witnesses/Services.antt =====
-- The theorems on the Pub/Sub services at concrete inputs.
use lclq.Common.{ℕ, String, ◌≡◌, refl, ◌⊎◌, true, false, List, [], ◌∷◌, none}
use lclq.Common.Chars.{all_chars}
use lclq.Common.HashMap
use lclq.Error.{ok}
use lclq.Memory.Backend.{BackendReadings, memory_backend}
use lclq.Memory.State.{InMemoryBackend}
use lclq.PubSub.Names.{subscription, parse, split_slash}
use lclq.PubSub.Proto.{Subscription}
use lclq.PubSub.Publisher.{backend_id}
use lclq.PubSub.Publisher.Service.{absent, fan_out}
use lclq.PubSub.Publisher.Service.Fanout.{IsComplete, IsCutOff, fan_out-served}
use lclq.PubSub.Subscriber.{subscription_to_config, config_to_subscription}
use lclq.PubSub.Subscriber.RoundTrip.{topic-config_to_subscription}
use lclq.PubSub.Subscriber.Service.{delete_subscription}
use lclq.PubSub.Subscriber.Service.Orphans.{delete_subscription-absent}
use lclq.Storage.{StorageBackend}
use lclq.Types.{Message, pub_sub_topic, SubscriptionConfig}
use lclq.Witnesses.Codec.{codec}
use lclq.Witnesses.Data
use lclq.Witnesses.Data.{config_of, queue_of, message_of, backend, times, digest}

abbrev readings : BackendReadings
readings = record {
  creating = 1;
  sending = λ k. times;
  receiving = Data.readings;
  changing = 100;
  expiring = 100;
}

abbrev memory : StorageBackend InMemoryBackend
memory = memory_backend codec digest readings

-- A backend with the queue of a topic that no subscription has the name of.
abbrev with_topic : InMemoryBackend
with_topic = record backend {
  queues = ("p:news", queue_of (config_of "p:news" pub_sub_topic none) []) ∷ [];
  subscriptions = [];
}

delete_subscription-absent_example :
    ((delete_subscription memory (λ text. none) "projects/p/subscriptions/news" with_topic).0
      ≡ absent "Subscription" "projects/p/subscriptions/news")
    × (HashMap.get "p:news"
          ((delete_subscription memory (λ text. none) "projects/p/subscriptions/news" with_topic).1
            ).queues
        ≡ none)
unfolding parse split_slash HashMap.get backend_id
delete_subscription-absent_example =
    delete_subscription-absent codec digest readings (λ text. none) "projects/p/subscriptions/news"
      (subscription "p" "news") with_topic refl refl

abbrev subscription_of : String → SubscriptionConfig
subscription_of sub_id = record {
  id = sub_id;
  name = sub_id;
  topic_id = "p:news";
  ack_deadline_seconds = 10;
  message_retention_duration = 604800;
  enable_message_ordering = false;
  filter = none;
  dead_letter_policy = none;
  push_config = none;
}

abbrev subscribers : List SubscriptionConfig
subscribers = subscription_of "orders" ∷ subscription_of "missing" ∷ []

abbrev news : List Message
news = message_of "n1" 0 ∷ []

abbrev as_text : List ℕ → String
as_text bytes = "text"

abbrev new_id : ℕ → String
new_id i = "new"

abbrev clock : ℕ → ℕ
clock i = i

fan_out-served_example :
    IsComplete memory as_text new_id clock clock subscribers news [] backend
      (fan_out memory as_text new_id clock clock subscribers news [] backend)
    ⊎ IsCutOff memory as_text new_id clock clock subscribers news backend
        (fan_out memory as_text new_id clock clock subscribers news [] backend)
fan_out-served_example =
    fan_out-served memory as_text new_id clock clock subscribers news [] backend

abbrev new_subscription : Subscription
new_subscription = record {
  name = "projects/p/subscriptions/readers";
  topic = "projects/p/topics/news";
  push_endpoint = none;
  ack_deadline_seconds = 10;
  message_retention_duration = none;
  enable_message_ordering = true;
  filter = "";
  dead_letter_policy = none;
  retry_policy = none;
}

topic-config_to_subscription_example :
    (config : SubscriptionConfig) × (subscription_to_config new_subscription ≡ ok config)
    × ((config_to_subscription config).topic ≡ "projects/p/topics/news")
    × ((config_to_subscription config).name ≡ "projects/p/subscriptions/readers")
unfolding parse split_slash all_chars
topic-config_to_subscription_example =
    topic-config_to_subscription new_subscription (subscription "p" "readers") "p" "news" refl refl
      refl refl
