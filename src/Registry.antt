-- ===== src/Registry.antt =====
-- internal/analyzer/registry.go: the registry of checks, its indexes and the selection of checks.
pub mod Check
pub mod Table
pub mod Index
pub mod Selection
pub mod Facts
pub mod Resolve
