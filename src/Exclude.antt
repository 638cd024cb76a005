-- ===== src/Exclude.antt =====
-- internal/analyzer/control.go: exclusion patterns and severity overrides. Glob has the matching of
-- patterns, Matches proves it against a description of patterns, Severity has the overrides.
pub mod Glob
pub mod Matches
pub mod Severity
