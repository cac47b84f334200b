-- ===== src/Leader.antt =====
-- crates/koprs/src/leader.rs: lease-based leader election.
pub mod Config
pub mod Lease
pub mod Elector
pub mod Cluster
pub mod Examples
