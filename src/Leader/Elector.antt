-- ===== src/Leader/Elector.antt =====
-- crates/koprs/src/leader.rs: `LeaderElector`. The API server is the record `LeaseApi` over an
-- environment `W`; the instants and timestamps that a body reads are its arguments.
-- `try_acquire_or_renew` is cut at its two awaits, so that other replicas may act between them.
pub mod Attempt
pub mod Loops
pub mod Expiry
pub mod Renewal
pub mod CutOff
pub mod Freshness
pub mod Acquiring
pub mod Winning
