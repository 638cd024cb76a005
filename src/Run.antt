-- ===== src/Run.antt =====
-- internal/analyzer/run.go: from the plan to the findings. Jobs has what runs, Pool the workers that
-- run it, Owners the packages that findings belong to and what an analysis mode leaves of them,
-- Identities the disambiguation of identities, Whole RunPlan; Statistics and Coverage count (stats.go).
pub mod Jobs
pub mod Pool
pub mod Accounts
pub mod Delivered
pub mod Progress
pub mod Owners
pub mod Statistics
pub mod Sorted
pub mod Identities
pub mod Unique
pub mod Whole
pub mod Tally
pub mod Coverage
pub mod Covered
