-- ===== src/Examples.antt =====
-- The theorems at concrete inputs.
mod Data
mod Checks
mod Store
mod Handlers
mod Work
