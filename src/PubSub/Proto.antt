-- ===== src/PubSub/Proto.antt =====
-- The messages of the Pub/Sub API, as pubsub/publisher.rs and pubsub/subscriber.rs use them, with
-- the fields that they read or write, and the answers of the gRPC services. A signed number is its
-- bit pattern in two's complement, of 32 or 64 bits, so that `as u32` takes its low bits.
use lclq.Common.{ℕ, ◌%◌, ◌^◌, String, Bool, List, Option}
use lclq.Common.HashMap.{HashMap}

pub data Code : Type 0 where
  invalid_argument not_found already_exists internal unimplemented : Code

pub record Status : Type 0 where
  pub code : Code
  pub message : String

-- `Result<Response<A>, Status>`.
pub data Reply {ℓ} (A : Type ℓ) : Type ℓ where
  reply : A → Reply A
  status : Status → Reply A

abbrev pub as_u32 : ℕ → ℕ
as_u32 n = n % 2 ^ 32

-- A duration by its seconds; the program writes no nanoseconds and reads none.
abbrev pub Duration : Type 0
Duration = ℕ

pub record Topic : Type 0 where
  pub name : String
  pub labels : HashMap String
  pub message_retention_duration : Option Duration

pub record PubsubMessage : Type 0 where
  pub data_ : List ℕ
  pub attributes : HashMap String
  pub message_id : String
  pub publish_time : Option (ℕ × ℕ)
  pub ordering_key : String

pub record RetryPolicy : Type 0 where
  pub minimum_backoff : Option Duration
  pub maximum_backoff : Option Duration

pub record DeadLetterPolicy : Type 0 where
  pub dead_letter_topic : String
  pub max_delivery_attempts : ℕ

pub record Subscription : Type 0 where
  pub name : String
  pub topic : String
  pub push_endpoint : Option String
  pub ack_deadline_seconds : ℕ
  pub message_retention_duration : Option Duration
  pub enable_message_ordering : Bool
  pub filter : String
  pub dead_letter_policy : Option DeadLetterPolicy
  pub retry_policy : Option RetryPolicy

pub record ReceivedMessage : Type 0 where
  pub ack_id : String
  pub message : PubsubMessage
  pub delivery_attempt : ℕ
