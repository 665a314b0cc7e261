-- ===== src/Memory.antt =====
-- storage/memory.rs, the in-memory backend: its state and its operations.
pub mod State
pub mod Totals
pub mod Invariant
pub mod Eviction
pub mod Send
pub mod Receive
pub mod Queues
pub mod InFlight
pub mod Subscriptions
pub mod Backend
pub mod Reachable
