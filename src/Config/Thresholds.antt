-- ===== src/Config/Thresholds.antt =====
-- internal/analyzer/thresholds.go: the registry of thresholds; control.go: their validation.
-- The descriptions are display strings, and are left out.
use solidify.Base.{
  ◌==◌, if◌then◌else◌, is_some, length, Text, text, text_eq, Map, find_key, index_by, ◌>>=◌, Result,
  ltb_ℤ, ℤ, ℕ, String, Bool, ◌||◌, Option, none, some, List, [], ◌∷◌, ok, err, pos,
}
use solidify.Config.Settings.{Config}

pub record ThresholdSpec : Type 0 where
  pub name : Text
  pub minimum : ℤ
  pub maximum : Option ℤ
  pub get : Config → ℤ
  pub set : Config → ℤ → Config

abbrev percentage_maximum : ℤ
percentage_maximum = pos 100

abbrev threshold : String → ℕ → Option ℤ → (Config → ℤ) → (Config → ℤ → Config) → ThresholdSpec
threshold name minimum maximum get set = record {
  name = text name;
  minimum = pos minimum;
  maximum = maximum;
  get = get;
  set = set;
}

unfoldable pub threshold_registry : List ThresholdSpec
threshold_registry =
    threshold "max_methods" 1 none (λ c. c.max_methods_per_type)
      (λ c v. record c { max_methods_per_type = v })
    ∷ threshold "max_func_lines" 1 none (λ c. c.max_func_lines)
        (λ c v. record c { max_func_lines = v })
    ∷ threshold "max_params" 1 none (λ c. c.max_func_params)
        (λ c v. record c { max_func_params = v })
    ∷ threshold "max_switch_cases" 1 none (λ c. c.max_type_switch_cases)
        (λ c v. record c { max_type_switch_cases = v })
    ∷ threshold "max_interface_methods" 1 none (λ c. c.max_interface_methods)
        (λ c v. record c { max_interface_methods = v })
    ∷ threshold "isp_min_methods" 1 none (λ c. c.isp_min_methods)
        (λ c v. record c { isp_min_methods = v })
    ∷ threshold "isp_usage_ratio_percent" 0 (some percentage_maximum)
        (λ c. c.isp_usage_ratio_percent) (λ c v. record c { isp_usage_ratio_percent = v })
    ∷ threshold "max_fields" 1 none (λ c. c.max_fields_per_type)
        (λ c v. record c { max_fields_per_type = v })
    ∷ threshold "max_type_lines" 1 none (λ c. c.max_type_lines)
        (λ c v. record c { max_type_lines = v })
    ∷ threshold "max_exported_methods" 1 none (λ c. c.max_exported_methods)
        (λ c v. record c { max_exported_methods = v })
    ∷ threshold "max_func_complexity" 1 none (λ c. c.max_func_complexity)
        (λ c v. record c { max_func_complexity = v })
    ∷ threshold "max_type_complexity" 1 none (λ c. c.max_type_complexity)
        (λ c v. record c { max_type_complexity = v })
    ∷ threshold "max_fanout" 1 none (λ c. c.max_fan_out) (λ c v. record c { max_fan_out = v })
    ∷ threshold "max_atfd" 1 none (λ c. c.max_atfd) (λ c v. record c { max_atfd = v })
    ∷ threshold "min_large_type_signals" 1 none (λ c. c.min_large_type_signals)
        (λ c v. record c { min_large_type_signals = v })
    ∷ threshold "min_tcc_percent" 0 (some percentage_maximum) (λ c. c.min_tcc_percent)
        (λ c v. record c { min_tcc_percent = v })
    ∷ threshold "min_cohesion_methods" 1 none (λ c. c.min_cohesion_methods)
        (λ c v. record c { min_cohesion_methods = v })
    ∷ threshold "min_cohesion_fields" 1 none (λ c. c.min_cohesion_fields)
        (λ c v. record c { min_cohesion_fields = v })
    ∷ threshold "min_component_methods" 1 none (λ c. c.min_component_methods)
        (λ c v. record c { min_component_methods = v })
    ∷ threshold "min_import_cluster_methods" 1 none (λ c. c.min_import_cluster_methods)
        (λ c v. record c { min_import_cluster_methods = v })
    ∷ threshold "ocp_min_dispatch_sites" 1 none (λ c. c.ocp_min_dispatch_sites)
        (λ c v. record c { ocp_min_dispatch_sites = v })
    ∷ threshold "ocp_min_shared_variants" 1 none (λ c. c.ocp_min_shared_variants)
        (λ c v. record c { ocp_min_shared_variants = v })
    ∷ threshold "ocp_dispatch_overlap_percent" 0 (some percentage_maximum)
        (λ c. c.ocp_dispatch_overlap_percent) (λ c v. record c { ocp_dispatch_overlap_percent = v })
    ∷ threshold "ocp_min_concrete_parameter_methods" 1 none
        (λ c. c.ocp_min_concrete_parameter_methods)
        (λ c v. record c { ocp_min_concrete_parameter_methods = v })
    ∷ threshold "ocp_min_implementation_imports" 1 none (λ c. c.ocp_min_implementation_imports)
        (λ c v. record c { ocp_min_implementation_imports = v })
    ∷ threshold "ocp_min_parallel_functions" 1 none (λ c. c.ocp_min_parallel_functions)
        (λ c v. record c { ocp_min_parallel_functions = v })
    ∷ threshold "ocp_min_parallel_nodes" 1 none (λ c. c.ocp_min_parallel_nodes)
        (λ c v. record c { ocp_min_parallel_nodes = v })
    ∷ threshold "ocp_parallel_similarity_percent" 0 (some percentage_maximum)
        (λ c. c.ocp_parallel_similarity_percent)
        (λ c v. record c { ocp_parallel_similarity_percent = v })
    ∷ threshold "dip_composition_root_fields" 1 none (λ c. c.dip_composition_root_fields)
        (λ c v. record c { dip_composition_root_fields = v })
    ∷ []

abbrev pub spec_name : ThresholdSpec → Text
spec_name s = s.name

-- The loop over the registry.
unfoldable pub threshold_spec : Text → Option ThresholdSpec
threshold_spec name = find_key spec_name name threshold_registry

unfoldable pub valid_threshold : Text → Bool
valid_threshold key = is_some (threshold_spec key)

unfoldable pub effective_thresholds : Config → Map ℤ
effective_thresholds cfg = index_by spec_name (λ s. s.get cfg) threshold_registry []

pub data ConfigError : Type 0 where
  unknown_threshold : Text → ConfigError
  not_between : Text → ℤ → ℤ → ConfigError
  below_minimum : Text → ℤ → ConfigError
  unknown_mode : Text → ConfigError

-- The tests on a value once the threshold is found.
unfoldable pub check_range : ℤ → Option ℤ → Text → ℤ → Result ConfigError (Unit {0})
check_range minimum none key value =
    if ltb_ℤ value minimum then err (below_minimum key minimum) else ok tt
check_range minimum (some maximum) key value =
    if ltb_ℤ value minimum || ltb_ℤ maximum value
    then err (not_between key minimum maximum)
    else if ltb_ℤ value minimum
    then err (below_minimum key minimum)
    else ok tt

unfoldable pub validate_threshold_value : Text → ℤ → Result ConfigError (Unit {0})
validate_threshold_value key value = elim (threshold_spec key) [
  | none ↦ err (unknown_threshold key)
  | some s ↦ check_range s.minimum s.maximum key value
]

-- The loop of ValidateConfig over the registry.
unfoldable pub validate_specs : Config → List ThresholdSpec → Result ConfigError (Unit {0})
validate_specs cfg [] = ok tt
validate_specs cfg (s ∷ specs) = do
  _ ← validate_threshold_value s.name (s.get cfg)
  validate_specs cfg specs

unfoldable pub valid_mode : Text → Bool
valid_mode mode =
    length mode == 0
    || text_eq mode (text "auto")
    || text_eq mode (text "syntax")
    || text_eq mode (text "types")

unfoldable pub validate_config : Config → Result ConfigError (Unit {0})
validate_config cfg = do
  _ ← validate_specs cfg threshold_registry
  if valid_mode cfg.analysis_mode then ok tt else err (unknown_mode cfg.analysis_mode)

unfoldable pub apply_threshold_value : Config → Text → ℤ → Config
apply_threshold_value cfg key value = elim (threshold_spec key) [
  | none ↦ cfg
  | some s ↦ s.set cfg value
]

-- The loop of ApplyThresholds over the given map, in some order.
unfoldable pub apply_each : Config → Map ℤ → Result ConfigError Config
apply_each cfg [] = ok cfg
apply_each cfg ((key, value) ∷ thresholds) =
    let rest : Result ConfigError Config = do
      _ ← validate_threshold_value key value
      apply_each (apply_threshold_value cfg key value) thresholds
    in if valid_threshold key then rest else err (unknown_threshold key)

unfoldable pub apply_thresholds : Config → Map ℤ → Result ConfigError Config
apply_thresholds cfg thresholds = do
  cfg' ← apply_each cfg thresholds
  _ ← validate_config cfg'
  ok cfg'
