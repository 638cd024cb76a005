-- ===== src/Config.antt =====
-- internal/analyzer: types.go, thresholds.go and control.go, the configuration of an analysis.
pub mod Settings
pub mod Thresholds
pub mod Lenses
pub mod Validation
pub mod File
pub mod Yaml
pub mod Sound
pub mod Discovery
pub mod Ascent
