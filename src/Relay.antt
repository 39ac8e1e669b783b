-- ===== src/Relay.antt =====
-- crates/purple-wolf-relay: the webhook relay.
pub mod Glob
pub mod Envelope
pub mod Filter
pub mod Retry
pub mod Delivery
pub mod Dlq
pub mod Parser
pub mod Config
pub mod Pipeline
pub mod Admin
pub mod Signer
pub mod Request
pub mod Sources
pub mod Start
pub mod Stdin
pub mod Supervisor
pub mod Stop
pub mod Tail
pub mod Tasks
pub mod Enrichers
