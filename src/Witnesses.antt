-- ===== src/Witnesses.antt =====
-- The theorems at concrete inputs, and the data for them.
mod Codec
mod Data
mod Receiving
mod Sending
mod Clients
mod Server
mod Services
