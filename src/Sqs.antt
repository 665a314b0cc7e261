-- ===== src/Sqs.antt =====
-- The SQS server: data types, requests, responses and the handler.
pub mod Types
pub mod Digest
pub mod Escape
pub mod Response
pub mod Json
pub mod Request
pub mod Handler
