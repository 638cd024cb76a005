-- ===== src/Paths.antt =====
-- internal/analyzer/paths.go: the paths that reports and fingerprints use, on a system whose paths
-- are separated by slashes. What is hashed or read from disk is left out.
pub mod Clean
pub mod Cleaned
pub mod Normalized
