-- ===== src/Cli/Policy.antt =====
-- internal/cli/policy.go: from options and a configuration file to the configuration and the plan of a
-- check. Reading a file and decoding its YAML is a parameter.
use solidify.Base.{
  ℤ, ◌==◌, if◌then◌else◌, length, Text, text, Map, flag, ◌>>=◌, Result, Bool, true, false, not,
  ◌&&◌, ◌||◌, Option, none, some, List, [], ◌∷◌, ok, err,
}
use solidify.Ids.{profile_stable}
use solidify.Registry.Check.{surface_cli}
use solidify.Registry.Selection.{SelectionError}
use solidify.Paths.Clean.{join}
use solidify.Exclude.Glob.{SegmentMatch}
use solidify.Config.Settings.{Config, default_config}
use solidify.Config.Thresholds.{ConfigError, validate_config, apply_thresholds}
use solidify.Config.File.{FileConfig, apply}
use solidify.Config.Yaml.{YamlFileConfig, SemanticError, load_file_config}
use solidify.Config.Discovery.{FileSystem, DiscoveryError, find_config_for_targets}
use solidify.Plan.{PlanConfig, ExecutionPlan, new_execution_plan}
use solidify.Cli.Options.{CheckOptions}
use solidify.Cli.Rules.{RulesError, parse_rules, parse_check_ids}

pub record CheckPolicy : Type 0 where
  pub options : CheckOptions
  pub config : Config
  pub file_config : FileConfig
  pub enabled : Map Bool
  pub plan : ExecutionPlan
  pub config_file : Text

pub data PolicyError : Type 0 where
  discovery : DiscoveryError → PolicyError
  unreadable : Text → PolicyError
  semantic : SemanticError → PolicyError
  thresholds invalid_config : ConfigError → PolicyError
  rules : RulesError → PolicyError
  selection : SelectionError → PolicyError

abbrev pub wrap {ℓ κ} :
    {E : Type ℓ} {A : Type κ} → (E → PolicyError) → Result E A → Result PolicyError A
wrap f (ok a) = ok a
wrap f (err e) = err (f e)

-- The file system, the matching of exclusion patterns, and a file's decoded contents, none where it
-- cannot be read or decoded.
pub record Sources : Type 0 where
  pub files : FileSystem
  pub match_segment : SegmentMatch
  pub decode : Text → Option YamlFileConfig

-- FileConfig{}
abbrev pub no_file_config : FileConfig
no_file_config = record {
  profile = [];
  enabled_rules = [];
  enabled_checks = [];
  excludes = [];
  thresholds = [];
  severities = [];
  allow_dependencies = [];
  disabled_checks = [];
  fail_level = [];
  ocp_discriminator_fields = [];
  ocp_allow_dispatch_types = [];
  ocp_allow_packages = [];
  ocp_logic_packages = [];
  ocp_implementation_packages = [];
  ocp_composition_roots = [];
  dip_infra_error_packages = [];
  dip_transport_types = [];
  srp_orchestrator_suffixes = [];
  isp_wiring_aggregate_suffixes = [];
  isp_execution_methods = [];
  dip_domain_packages = [];
  dip_data_bag_suffixes = [];
  dip_detail_imports = [];
}

-- config.Load
abbrev pub load_path : Sources → Text → Result PolicyError FileConfig
load_path s path = elim (s.decode path) [
  | none ↦ err (unreadable path)
  | some raw ↦ wrap semantic (load_file_config s.match_segment raw)
]

-- The path of the file, empty for none, and whether it was discovered.
abbrev pub config_path_of : Sources → CheckOptions → Text → Result PolicyError (Text × Bool)
config_path_of s options [] = do
  found ← wrap discovery (find_config_for_targets s.files options.paths)
  ok (found, not (length found == 0))
config_path_of s options (c ∷ path) = ok (c ∷ path, false)

abbrev pub load_found : Sources → Text × Bool → Result PolicyError (Text × (Bool × FileConfig))
load_found s ([], discovered) = ok ([], (false, no_file_config))
load_found s (c ∷ path, discovered) = do
  file ← load_path s (c ∷ path)
  ok (c ∷ path, (discovered, file))

unfoldable pub load_check_config :
    Sources → CheckOptions → Result PolicyError (Text × (Bool × FileConfig))
load_check_config s options = do
  found ← config_path_of s options options.config_path
  load_found s found

-- The ifs of applyCheckOverrides that set a threshold.
unfoldable pub apply_legacy_flags : CheckOptions → Config → Config
apply_legacy_flags o c =
    let c₁ =
      if flag (text "max-methods") o.set
      then record c { max_methods_per_type = o.max_methods }
      else c in
    let c₂ =
      if flag (text "max-func-lines") o.set
      then record c₁ { max_func_lines = o.max_func_lines }
      else c₁ in
    let c₃ =
      if flag (text "max-params") o.set then record c₂ { max_func_params = o.max_params } else c₂ in
    let c₄ =
      if flag (text "max-switch-cases") o.set
      then record c₃ { max_type_switch_cases = o.max_switch_cases }
      else c₃ in
    let c₅ =
      if flag (text "max-interface-methods") o.set
      then record c₄ { max_interface_methods = o.max_interface_methods }
      else c₄ in
    let c₆ =
      if flag (text "isp-min-methods") o.set
      then record c₅ { isp_min_methods = o.isp_min_methods }
      else c₅ in
    if flag (text "isp-usage-ratio-percent") o.set
    then record c₆ { isp_usage_ratio_percent = o.isp_usage_ratio_percent }
    else c₆

-- The new configuration and the options, whose fail level Go changes in place.
unfoldable pub apply_check_overrides : Config → CheckOptions → FileConfig → Config × CheckOptions
apply_check_overrides cfg o file =
    let c = apply_legacy_flags o cfg in
    (
      record c {
        profile =
            if flag (text "profile") o.set || length file.profile == 0
            then o.profile
            else c.profile;
        enabled_checks =
            if flag (text "enable-checks") o.set
            then parse_check_ids o.enabled_checks
            else c.enabled_checks;
      },
      (if not (length file.fail_level == 0) && not (flag (text "fail-level") o.set)
          then record o { fail_level = file.fail_level }
          else o),
    )

-- The -threshold flags are applied if there are any.
abbrev pub apply_if_any : Map ℤ → Config → Result PolicyError Config
apply_if_any [] cfg = ok cfg
apply_if_any (t ∷ given) cfg = wrap thresholds (apply_thresholds cfg (t ∷ given))

unfoldable pub apply_threshold_flags : CheckOptions → Config → Result PolicyError Config
apply_threshold_flags o cfg = apply_if_any o.thresholds cfg

-- The assignments after the thresholds.
unfoldable pub apply_run_options : CheckOptions → FileConfig → Text → Config → Config
apply_run_options o file version cfg = record cfg {
  cache_dir = o.cache_dir;
  cache_enabled = o.cache;
  cache_diagnostics = o.cache_debug;
  analysis_mode = o.analysis;
  include_tests = o.include_tests;
  tool_version = version;
  excluded_files = file.excludes;
}

abbrev pub plan_config : Config → PlanConfig
plan_config cfg = record {
  profile = cfg.profile;
  analysis_mode = cfg.analysis_mode;
  enabled_checks = cfg.enabled_checks;
  disabled_checks = cfg.disabled_checks;
}

abbrev is_nil : List Text → Bool
is_nil [] = true
is_nil (v ∷ l) = false

abbrev pub rule_spec : CheckOptions → FileConfig → Text
rule_spec o file =
    if not (is_nil file.enabled_rules) && not (flag (text "rules") o.set)
    then join (text ",") file.enabled_rules
    else o.rules

-- The configuration before the file is applied.
abbrev pub starting_config : Config
starting_config = record default_config { profile = profile_stable }

abbrev pub with_file : Text → FileConfig → Config
with_file [] file = starting_config
with_file (c ∷ path) file = apply file starting_config

-- What follows the loading of the file.
unfoldable pub policy_from :
    CheckOptions → Text → Text → FileConfig → Result PolicyError CheckPolicy
policy_from options version config_file file = do
  let (overridden, o) = apply_check_overrides (with_file config_file file) options file
  flagged ← apply_threshold_flags o overridden
  let cfg = apply_run_options o file version flagged
  _ ← wrap invalid_config (validate_config cfg)
  enabled ← wrap rules (parse_rules (rule_spec o file))
  plan ← wrap selection (new_execution_plan (plan_config cfg) enabled surface_cli)
  ok (record {
    options = o;
    config = cfg;
    file_config = file;
    enabled = enabled;
    plan = plan;
    config_file = config_file;
  })

unfoldable pub resolve_check_policy : Sources → CheckOptions → Text → Result PolicyError CheckPolicy
resolve_check_policy s options version = do
  (config_file, (_, file)) ← load_check_config s options
  policy_from options version config_file file
