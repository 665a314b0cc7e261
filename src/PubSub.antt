-- ===== src/PubSub.antt =====
-- The Pub/Sub side of the program, pubsub/: resource names, IDs, and the push delivery.
pub mod Names
pub mod Ids
pub mod PushQueue
pub mod PushWorker
pub mod Proto
pub mod Publisher
pub mod Subscriber
