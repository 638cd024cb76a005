-- ===== src/Examples/Files.antt =====
-- internal/analyzer/control.go, control_yaml.go and internal/cli/policy.go: a file that is found, read
-- and combined with flags.
use solidify.Base.{
  if◌then◌else◌, text, text_eq, lookup, insert, index_by, is_ok, Result, sort_by, to_upper,
  trim_left, trim_right, trim_space, has_prefix, without_prefix, ◌≡◌, refl, true, false, none, some,
  [], ◌∷◌, map, ok, err, pos,
}
use solidify.Config.Settings.{default_config}
use solidify.Config.Thresholds.{validate_config, effective_thresholds}
use solidify.Cli.Rules.{parse_rules, collect_rules, code_to_rule}
use solidify.Examples.Selection.{plan_program}
use solidify.Examples.Settings.{settings_program}
use solidify.Exclude.Glob.{validate_exclude_patterns}
use solidify.Paths.Clean.{clean, clean_parts, split_on, join, go_up}
use solidify.Config.Yaml.{
  YamlFileConfig, to_file_config, validate_semantic, validate_profile, validate_rules,
  valid_rule_code, validate_excludes, validate_enabled, validate_disabled, load_file_config,
  validate_fail_level, valid_severity, validate_severities, validate_thresholds, validate_threshold,
}
use solidify.Config.File.{apply, apply_lists, apply_file_thresholds}
use solidify.Config.Sound.{apply-valid}
use solidify.Config.Discovery.{
  FileSystem, find_config_for_targets, scan_targets, find_config, find_up, config_file_in_dir,
  one_scope, config_search_start, join_path, base_of, after_slash, dir_of, through_slash,
}
use solidify.Config.Ascent.{is_out_of_fuel, find_config_for_targets-finishes}
use solidify.Cli.Options.{CheckOptions, flag_defaults}
use solidify.Plan.{ExecutionPlan}
use solidify.Cli.Policy.{
  load_check_config, policy_from, apply_check_overrides, apply_legacy_flags, apply_threshold_flags,
  apply_run_options, Sources, CheckPolicy, PolicyError, resolve_check_policy, no_file_config,
}
use solidify.Cli.Precedence.{IsResolved, resolve_check_policy-IsResolved}

-- Two directories, of which the upper one has a configuration file.
abbrev tree : FileSystem
tree = record {
  stat = λ path. if text_eq path (text "/work/.solidlint.yml") then some false else none;
  abs = λ path. some (text "/work/internal");
}

find_config_for_targets-finishes_example :
    is_out_of_fuel (find_config_for_targets tree (text "internal" ∷ [])) ≡ false
find_config_for_targets-finishes_example =
    find_config_for_targets-finishes tree (text "internal" ∷ [])

discovery_program : Unit {0}
unfolding find_config_for_targets scan_targets find_config find_up config_file_in_dir one_scope
    config_search_start join_path base_of after_slash dir_of through_slash clean clean_parts
    split_on join go_up has_prefix without_prefix trim_space trim_left trim_right text_eq insert
    sort_by
discovery_program = tt

found_above : find_config_for_targets tree (text "internal" ∷ []) ≡ ok (text "/work/.solidlint.yml")
unfolding discovery_program
found_above = refl

abbrev small_yaml : YamlFileConfig
small_yaml = record {
  profile = text "stable";
  enabled_rules = text "S" ∷ [];
  enabled_checks = [];
  exclude = [];
  thresholds = (text "max_params", pos 5) ∷ (text "min_tcc_percent", pos 40) ∷ [];
  severity = [];
  allow_dependencies = [];
  disabled_checks = [];
  fail_level = text "error";
  orchestrator_suffixes = [];
  discriminator_fields = [];
  allow_dispatch_types = [];
  allow_packages = [];
  wiring_aggregate_suffixes = [];
  execution_methods = [];
  logic_packages = [];
  implementation_packages = [];
  composition_roots = [];
  infra_error_packages = [];
  transport_types = [];
  domain_packages = [];
  data_bag_suffixes = [];
  detail_imports = [];
}

abbrev pub sources : Sources
sources = record {
  files = tree;
  match_segment = λ p v. some (text_eq p v);
  decode = λ path. some small_yaml;
}

file_program : Unit {0}
unfolding plan_program settings_program validate_semantic validate_profile validate_rules
    valid_rule_code validate_excludes validate_exclude_patterns validate_enabled validate_disabled
    validate_fail_level valid_severity validate_severities validate_thresholds validate_threshold
    to_upper trim_space trim_left trim_right
file_program = tt

apply-valid_example :
    is_ok (validate_config (apply (to_file_config small_yaml) default_config)) ≡ true
unfolding file_program
apply-valid_example = apply-valid sources.match_segment small_yaml default_config refl refl refl

-- A value by -threshold, one by its own flag, and the file's.
abbrev pub options : CheckOptions
options = record flag_defaults {
  config_path = text "solidlint.yml";
  max_func_lines = pos 80;
  set = (text "max-func-lines", true) ∷ [];
  thresholds = (text "max_params", pos 3) ∷ [];
}

unfoldable pub policy_program : Unit {0}
unfolding file_program resolve_check_policy load_check_config load_file_config to_file_config
    policy_from apply_check_overrides apply_legacy_flags apply_threshold_flags apply_run_options
    apply apply_lists apply_file_thresholds parse_rules collect_rules code_to_rule flag_defaults
    split_on join index_by
policy_program = tt

abbrev no_plan : ExecutionPlan
no_plan = record { profile = []; mode = []; surface = 0; selected = []; groups = [] }

abbrev ok_or : CheckPolicy → Result PolicyError CheckPolicy → CheckPolicy
ok_or p (ok policy) = policy
ok_or p (err _) = p

unfoldable pub resolved : CheckPolicy
unfolding policy_program
resolved =
    ok_or
      (record {
        options = flag_defaults;
        config = default_config;
        file_config = no_file_config;
        enabled = [];
        plan = no_plan;
        config_file = [];
      })
      (resolve_check_policy sources options (text "dev"))

pub resolves : resolve_check_policy sources options (text "dev") ≡ ok resolved
unfolding policy_program resolved
resolves = refl

resolve_check_policy-IsResolved_example :
    IsResolved options resolved (text "max_params")
    × (is_ok (validate_config resolved.config) ≡ true)
unfolding policy_program resolved
resolve_check_policy-IsResolved_example =
    resolve_check_policy-IsResolved sources options (text "dev") (text "max_params") refl refl
      resolves

three_sources :
    map
      (λ k. lookup k (effective_thresholds resolved.config))
      (text "max_params" ∷ text "max_func_lines" ∷ text "min_tcc_percent" ∷ text "max_methods" ∷ [])
    ≡ some (pos 3) ∷ some (pos 80) ∷ some (pos 40) ∷ some (pos 10) ∷ []
unfolding policy_program resolved
three_sources = refl
