-- ===== src/Router.antt =====
-- The HTTP handlers of the daemon, crates/daemon/src/router.
pub mod Gates
pub mod Tasks
pub mod Rounds
pub mod Runs
pub mod Leases
pub mod Provenance
pub mod Plans
