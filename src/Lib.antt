-- ===== src/Lib.antt =====
-- lclq, a local server with the interfaces of AWS SQS and GCP Pub/Sub: its in-memory storage, the
-- receipt handles, the managers that run beside it, the SQS server from the HTTP body to the answer,
-- the publisher and subscriber services of Pub/Sub, and the delivery of pushed messages.
--
-- The parts and their files:
--   * Common: tests, lists, hash maps as association lists, bits, texts and machine words.
--   * Error, Types, Storage: src/error/mod.rs, src/types/mod.rs and src/storage/mod.rs, the data that
--     all parts share. The trait `StorageBackend` is a record of operations on a state.
--   * Receipt: src/core/receipt.rs. The crates that it calls are the record `ReceiptCodec`, with the
--     laws that their documentation states; `generate_receipt_handle` takes the text of the random
--     UUID as an argument.
--   * Memory: src/storage/memory.rs, the in-memory backend. Memory/State has its data, Memory/Eviction
--     `maybe_evict` with its policies, Memory/Send `send_message` and `send_messages`,
--     Memory/Receive `receive_messages` and `process_expired_visibility`, Memory/InFlight
--     `delete_message` and `change_visibility`, Memory/Queues and Memory/Subscriptions the rest,
--     Memory/Backend the trait's instance, and Memory/Reachable the calls as steps.
--   * Validation: src/types/validation.rs.
--   * Sqs: Types and Digest for src/sqs/types.rs, Request with Protocol and Batch for
--     src/sqs/request.rs, Response with Lists and Escape for src/sqs/response.rs, and Handler for
--     src/sqs/handler.rs: Queues, Messages, Batches, Attributes, Updates and Tags have the actions,
--     Policies the redrive policies, JsonAnswer `xml_to_json_response`, Dispatch `handle_request`
--     and `handle_sqs_request` of src/sqs/server.rs. Json is what they use of `serde_json`. The
--     handlers are clients of `StorageBackend`.
--   * PubSub: Names and Ids for src/pubsub/types.rs, PushQueue for src/pubsub/push_queue.rs,
--     PushWorker for src/pubsub/push_worker.rs, Proto for the fields of the generated messages that
--     the services use, Publisher for src/pubsub/publisher.rs, and Subscriber for
--     src/pubsub/subscriber.rs, both with the handlers in Service and clients of `StorageBackend`;
--     Subscriber/Stream has the loop of `streaming_pull` as steps.
--   * Dlq and Visibility: src/core/dlq.rs and src/core/visibility.rs, clients of `StorageBackend`.
--   * Witnesses: the theorems at concrete inputs.
--
-- An operation is a function of the state and of what it reads from outside, the clock and random
-- IDs, which are arguments. Times are nanoseconds. What runs under one lock is one step. A change
-- by `+= 1` of a `u32` or `u64` wraps; the other sums of the models are of lengths or times. A hash
-- map is a list of entries in the order in which it is iterated, whatever it is. Loops are structural
-- recursion on lists, without fuel, but for three: the decimal form of a number has one more than the
-- number as fuel, which is more than it has digits; a loop over the numbered parameters of a request
-- has one more than the number of parameters, of which each round finds another; and the search for
-- tags in a response has one more than its bytes, of which each round passes over some. The
-- waiting loop of a delivery queue runs over a list of its rounds, and the workers of a pool and the
-- publishers are one list of steps. The locks of `send_message` are steps of their own in
-- Memory/Send/Interleaved.
--
-- Not modelled: the SQLite backend with its clean-up, the REST and gRPC transport of Pub/Sub, the
-- start of the servers, configuration, metrics, the command line, logging. Parameters are: the HTTP
-- request of a push delivery, SHA-256 and MD5, base64, `serde_json`, the decoding of URLs,
-- `to_lowercase` and the Unicode table of `is_alphanumeric`.
pub mod Common
pub mod Error
pub mod Types
pub mod Receipt
pub mod Validation
pub mod Sqs
pub mod Storage
pub mod Memory
pub mod PubSub
pub mod Dlq
pub mod Visibility
pub mod Witnesses
