-- ===== src/Suggest.antt =====
-- internal/analyzer/control_yaml.go: the "did you mean" suggestions of configuration errors.
pub mod EditDistance
pub mod Levenshtein
pub mod Nearest
pub mod Known
