-- ===== src/Issues.antt =====
-- internal/analyzer/types.go: findings, their stable identity and their fingerprints.
pub mod Issue
pub mod Evidence
pub mod Finalize
pub mod Identity
