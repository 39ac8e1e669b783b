-- ===== src/Reputation.antt =====
-- crates/purple-wolf-core/src/detectors/reputation.rs: the bounded per-IP token buckets (Lru), the
-- deny list and the detector (Detect).
pub mod Float
pub mod Lru
pub mod Detect
mod Tests
