-- ===== src/Repo.antt =====
-- The storage crate, crates/db: one module per repository.
pub mod Db
pub mod Plans
pub mod Projects
pub mod Scenarios
pub mod Decisions
pub mod Policies
pub mod Action
pub mod Runs
pub mod Tasks
pub mod Leases
pub mod Patterns
pub mod Reviews
pub mod Relations
pub mod Budgets
pub mod Rounds
pub mod Baseline
pub mod Progress
pub mod CarryOver
