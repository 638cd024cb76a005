-- ===== src/Config/Validation.antt =====
-- internal/analyzer/control.go: what the validation of thresholds admits, and what ApplyThresholds
-- leaves in the configuration.
use solidify.Base.{
  All, Text, text_eq_iff, Map, lookup, distinct, find_key_self, lookup-none, is_ok, ◌≤ℤ◌, ℤ, ◌≡◌,
  refl, ◌↔◌, true, Option, none, some, List, [], ◌∷◌, map, arith, ok,
}
use solidify.Config.Settings.{Config}
use solidify.Config.Thresholds.{
  ThresholdSpec, threshold_registry, spec_name, threshold_spec, effective_thresholds, check_range,
  validate_threshold_value, validate_specs, valid_mode, validate_config, apply_threshold_value,
  apply_each, apply_thresholds,
}
use solidify.Config.Lenses.{apply_threshold_value-effective, threshold_registry-distinct}

-- The value is in the range from `minimum` to `maximum`, if there is a maximum.
abbrev pub IsBetween : ℤ → Option ℤ → ℤ → Type 0
IsBetween minimum none value = minimum ≤ℤ value
IsBetween minimum (some maximum) value = (minimum ≤ℤ value) × (value ≤ℤ maximum)

pub check_range-IsBetween :
    (minimum : ℤ) (maximum : Option ℤ) (key : Text) (value : ℤ)
    → is_ok (check_range minimum maximum key value) ≡ true
    → IsBetween minimum maximum value
unfolding check_range
check_range-IsBetween minimum none key value h = ground arith
check_range-IsBetween minimum (some maximum) key value h = (ground arith, ground arith)

IsBetween-check_range :
    (minimum : ℤ) (maximum : Option ℤ) (key : Text) (value : ℤ)
    → IsBetween minimum maximum value
    → is_ok (check_range minimum maximum key value) ≡ true
unfolding check_range
IsBetween-check_range minimum none key value h = ground arith
IsBetween-check_range minimum (some maximum) key value h = ground (arith, h.0, h.1)

-- The setting of a threshold is in the threshold's range.
abbrev pub IsInRange : Config → ThresholdSpec → Type 0
IsInRange cfg s = IsBetween s.minimum s.maximum (s.get cfg)

module _ (cfg : Config) where
  validate_one :
      (s : ThresholdSpec)
      → threshold_spec s.name ≡ some s
      → validate_threshold_value s.name (s.get cfg)
        ≡ check_range s.minimum s.maximum s.name (s.get cfg)
  unfolding validate_threshold_value
  validate_one s e = rw (e, validate_threshold_value)

  validate_specs-IsInRange :
      (l : List ThresholdSpec)
      → All (λ s. threshold_spec s.name ≡ some s) l
      → is_ok (validate_specs cfg l) ≡ true
      → All (IsInRange cfg) l
  unfolding validate_specs
  validate_specs-IsInRange [] e h = tt
  validate_specs-IsInRange (s ∷ l) e h = (
    check_range-IsBetween s.minimum s.maximum s.name (s.get cfg)
        (ground (arith, validate_one s e.0)),
    validate_specs-IsInRange l e.1 (ground (arith, validate_one s e.0)),
  )

  IsInRange-validate_specs :
      (l : List ThresholdSpec)
      → All (λ s. threshold_spec s.name ≡ some s) l
      → All (IsInRange cfg) l
      → is_ok (validate_specs cfg l) ≡ true
  unfolding validate_specs
  IsInRange-validate_specs [] e h = refl
  IsInRange-validate_specs (s ∷ l) e h = ground (
    arith,
    validate_one s e.0,
    IsBetween-check_range s.minimum s.maximum s.name (s.get cfg) h.0,
    IsInRange-validate_specs l e.1 h.1,
  )

pub registry_found : All (λ s. threshold_spec s.name ≡ some s) threshold_registry
unfolding threshold_spec
registry_found = find_key_self spec_name threshold_registry threshold_registry-distinct

-- A configuration is valid exactly when every threshold's setting is in the threshold's range and the
-- analysis mode is empty or one of auto, syntax and types.
pub validate_config_iff :
    (cfg : Config)
    → (is_ok (validate_config cfg) ≡ true)
      ↔ (All (IsInRange cfg) threshold_registry × (valid_mode cfg.analysis_mode ≡ true))
unfolding validate_config
validate_config_iff cfg = (
  λ h.
      (validate_specs-IsInRange cfg threshold_registry registry_found (ground arith), ground arith),
  λ h. ground (arith, IsInRange-validate_specs cfg threshold_registry registry_found h.0, h.1),
)

-- What a map overrides.
abbrev pub overridden : Option ℤ → Option ℤ → Option ℤ
overridden none old = old
overridden (some value) old = some value

apply_each-effective :
    (thresholds : Map ℤ) (cfg : Config) {cfg' : Config} (k : Text)
    → distinct (map (λ e. e.0) thresholds) ≡ true
    → apply_each cfg thresholds ≡ ok cfg'
    → lookup k (effective_thresholds cfg')
      ≡ overridden (lookup k thresholds) (lookup k (effective_thresholds cfg))
unfolding apply_each distinct lookup
apply_each-effective [] cfg k d h = ground arith
apply_each-effective ((key, value) ∷ thresholds) cfg {cfg'} k d h = ground (
  arith,
  apply_each-effective thresholds (apply_threshold_value cfg key value) {cfg' = cfg'} k,
  apply_threshold_value-effective cfg key k value,
  lookup-none k thresholds,
  text_eq_iff key k,
)

-- When a map of thresholds is applied, in whatever order its keys come, each threshold that it names
-- has the value given and every other the value from before, and the whole configuration is valid.
pub apply_thresholds-effective :
    (thresholds : Map ℤ) (cfg : Config) {cfg' : Config} (k : Text)
    → distinct (map (λ e. e.0) thresholds) ≡ true
    → apply_thresholds cfg thresholds ≡ ok cfg'
    → (lookup k (effective_thresholds cfg')
        ≡ overridden (lookup k thresholds) (lookup k (effective_thresholds cfg)))
      × All (IsInRange cfg') threshold_registry
      × (valid_mode cfg'.analysis_mode ≡ true)
unfolding apply_thresholds
apply_thresholds-effective thresholds cfg {cfg'} k d h =
    let each : apply_each cfg thresholds ≡ ok cfg' = ground arith in
    let valid : is_ok (validate_config cfg') ≡ true = ground arith in
    let (ranges, mode) = (validate_config_iff cfg').0 valid in
    (apply_each-effective thresholds cfg k d each, ranges, mode)
