-- ===== src/Checks.antt =====
-- internal/analyzer: what the checks compute on plain data, apart from Go's syntax trees. Similarity
-- is the comparison of functions by their tokens, Shingles has what it comes to.
pub mod Similarity
pub mod Shingles
pub mod Parallel
pub mod Grouped
