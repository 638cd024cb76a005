-- ===== src/Examples.antt =====
-- Runs of the definitions on small inputs, and the theorems at inputs that meet their hypotheses.
pub mod Selection
pub mod Settings
pub mod Findings
pub mod Acceptance
pub mod Comments
pub mod Running
pub mod Sorting
pub mod Parallel
pub mod Coverage
pub mod Files
pub mod Commands
