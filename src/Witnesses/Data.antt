-- ===== src/Witnesses/Data.antt =====
-- A backend with a queue of three messages, a FIFO queue and a dead letter queue.
use lclq.Common.{ℕ, String, true, false, List, [], ◌∷◌, Option, none, some}
use lclq.Types.{
  Message, QueueType, sqs_standard, sqs_fifo, QueueConfig, DlqConfig, ReceiveOptions,
  SubscriptionConfig, default_retry_policy,
}
use lclq.Receipt.{generate_receipt_handle}
use lclq.Memory.State.{
  lru, StoredMessage, InFlightMessage, QueueData, InMemoryBackend, InMemoryConfig,
}
use lclq.Memory.Send.{SendTimes}
use lclq.Memory.Receive.{ReceiveReadings}
use lclq.Witnesses.Codec.{write, codec}

abbrev pub config_of : String → QueueType → Option DlqConfig → QueueConfig
config_of id queue_type dlq = record {
  id = id;
  name = id;
  queue_type = queue_type;
  visibility_timeout = 30;
  message_retention_period = 345600;
  max_message_size = 262144;
  delay_seconds = 0;
  dlq_config = dlq;
  content_based_deduplication = true;
  tags = [];
  redrive_allow_policy = none;
}

abbrev pub message_of : String → (receive_count : ℕ) → Message
message_of id receive_count = record {
  id = id;
  body = "hello";
  attributes = [];
  queue_id = "orders";
  sent_timestamp = 5;
  receive_count = receive_count;
  message_group_id = none;
  deduplication_id = none;
  sequence_number = none;
  delay_seconds = none;
}

abbrev pub to_dead : DlqConfig
to_dead = record { target_queue_id = "dead"; max_receive_count = 3 }

abbrev pub queue_of : QueueConfig → List StoredMessage → QueueData
queue_of config ms = record {
  config = config;
  available_messages = ms;
  in_flight_messages = [];
  deduplication_cache = [];
  next_sequence_number = 0;
  last_access = 7;
}

-- The second message is not visible yet, the third has been received too often.
abbrev pub orders : QueueData
orders = queue_of (config_of "orders" sqs_standard (some to_dead)) (
    record { message = message_of "m1" 0; visible_at = 10 }
    ∷ record { message = message_of "m2" 0; visible_at = 1000 }
    ∷ record { message = message_of "m3" 3; visible_at = 20 }
    ∷ [])

abbrev pub events : QueueData
events = queue_of (config_of "events" sqs_fifo none) []

abbrev pub dead : QueueData
dead = queue_of (config_of "dead" sqs_standard none) []

abbrev pub limit_of_three : InMemoryConfig
limit_of_three = record { max_messages = 3; eviction_policy = lru }

abbrev pub backend : InMemoryBackend
backend = record {
  queues = ("orders", orders) ∷ ("events", events) ∷ ("dead", dead) ∷ [];
  subscriptions = [];
  config = limit_of_three;
}

abbrev pub times : SendTimes
times = record { accessed = 100; checked = 100; remembered = 101; cleaned = 102; queued = 103 }

abbrev pub later_times : SendTimes
later_times = record {
  accessed = 200;
  checked = 200;
  remembered = 201;
  cleaned = 202;
  queued = 203;
}

abbrev pub digest : String → String
digest body = body

abbrev pub options : ReceiveOptions
options = record {
  max_messages = 5;
  visibility_timeout = none;
  wait_time_seconds = 0;
  attribute_names = [];
  message_attribute_names = [];
}

abbrev pub readings : ReceiveReadings
readings = record { accessed = 100; now = 100; nonce = λ i. write (i ∷ []); moved = λ i. 100 }

-- The same queue with its first message in flight.
abbrev pub handle_of_first : String
handle_of_first = generate_receipt_handle codec "orders" "m1" "n"

abbrev pub first_in_flight : InFlightMessage
first_in_flight = record { message = message_of "m1" 1; visibility_expires_at = 90 }

abbrev pub busy : QueueData
busy = record orders {
  available_messages = [];
  in_flight_messages = (handle_of_first, first_in_flight) ∷ [];
}

abbrev pub busy_backend : InMemoryBackend
busy_backend = record backend { queues = ("orders", busy) ∷ [] }

abbrev pub subscription : SubscriptionConfig
subscription = record {
  id = "sub";
  name = "sub";
  topic_id = "topic";
  ack_deadline_seconds = 10;
  message_retention_duration = 604800;
  enable_message_ordering = false;
  filter = none;
  dead_letter_policy = some (record { dead_letter_topic = "dead"; max_delivery_attempts = 5 });
  push_config = some (record {
    endpoint = "http://localhost/push";
    retry_policy = some default_retry_policy;
    timeout_seconds = none;
  });
}
