-- ===== src/Domain.antt =====
-- The pure domain crate, crates/core.
pub mod Results
pub mod Error
pub mod Ids
pub mod Round
pub mod Plan
pub mod Project
pub mod Pattern
pub mod Scenario
pub mod Task
pub mod Decision
pub mod Autonomy
pub mod Verification
pub mod Run
pub mod Disruption
pub mod Wire
