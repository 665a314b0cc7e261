-- ===== src/PubSub/Subscriber/RoundTrip.antt =====
-- About the conversions of pubsub/subscriber.rs: the names of a stored subscription.
use lclq.Common.{String, ◌≡◌, refl, true}
use lclq.Common.Split.{has_no_colon, split_colon-part, split_colon-append}
use lclq.Error.{ok}
use lclq.PubSub.Names.{ResourceName, topic, parse, display}
use lclq.PubSub.Names.RoundTrip.{display-parse}
use lclq.PubSub.Proto.{Subscription}
use lclq.PubSub.Publisher.{backend_id}
use lclq.PubSub.Subscriber.{
  convert, config_of, subscription_to_config, topic_of_config, config_to_subscription,
}
use lclq.Types.{SubscriptionConfig}

-- A subscription whose name and topic parse, with no colon in the topic's project and ID, converts
-- to a configuration that converts back to the same name and topic.
pub topic-config_to_subscription :
    (subscription : Subscription) (name : ResourceName) (p t : String)
    → parse subscription.name ≡ ok name
    → parse subscription.topic ≡ ok (topic p t)
    → has_no_colon p ≡ true
    → has_no_colon t ≡ true
    → (config : SubscriptionConfig) × (subscription_to_config subscription ≡ ok config)
      × ((config_to_subscription config).topic ≡ subscription.topic)
      × ((config_to_subscription config).name ≡ subscription.name)
unfolding subscription_to_config convert config_of config_to_subscription topic_of_config backend_id
    display
topic-config_to_subscription subscription name p t n e hp ht = (
  config_of subscription (backend_id name) (backend_id (topic p t)),
  rw (n, e) refl,
  rw (split_colon-append p t hp, split_colon-part t ht)
      (display-parse subscription.topic (topic p t) e),
  refl,
)
