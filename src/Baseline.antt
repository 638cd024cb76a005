-- ===== src/Baseline.antt =====
-- internal/baseline/baseline.go: the documents that accept findings. Document has the entries and
-- their validation, Update the comparison with current findings and the new document; Reading,
-- Expiry, Partition, Cycle, Settled and Kept
-- prove what they guarantee.
pub mod Document
pub mod Update
pub mod Stale
pub mod Gone
pub mod Reading
pub mod Partition
pub mod Cycle
pub mod Settled
pub mod Kept
pub mod Expiry
