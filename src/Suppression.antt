-- ===== src/Suppression.antt =====
-- internal/analyzer/run.go: suppression directives. Directives reads them from the comments, Locations
-- finds those that cover a finding, Covers proves which findings are left,
-- Validation which comments are reported.
pub mod Directives
pub mod Locations
pub mod Covers
pub mod Validation
