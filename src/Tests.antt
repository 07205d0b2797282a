-- ===== src/Tests.antt =====
-- Runs of the model at concrete inputs, and instances of the theorems.
mod Sending
mod Receiving
mod SdpText
mod Events
mod Life
mod Peers
mod Configs
mod Candidates
mod Negotiation
mod Shards
mod Transports
