-- ===== src/Cli/Options.antt =====
-- internal/cli/options.go: the options of a check and their validation. Go's flag package parses the
-- arguments, and strconv.Atoi a number; both are parameters of what calls them.
use solidify.Base.{
  ◌==◌, if◌then◌else◌, is_some, length, keep, Text, text, Map, lookup, insert, flag, listed, ◌>>=◌,
  Result, sort_by, trim_space, replace_byte, ℤ, Bool, true, false, not, ◌&&◌, Option, none, some,
  List, [], ◌∷◌, ◌++◌, map, ok, err,
}
use solidify.Ids.{profile_stable, profile_all, profile_calibration, severity_warning}
use solidify.Issues.Evidence.{cut}
use solidify.Config.Settings.{default_config}
use solidify.Cli.Rules.{valid_fail_level}

abbrev pub legacy_threshold_flags : List Text
legacy_threshold_flags =
    text "max-methods"
    ∷ text "max-func-lines"
    ∷ text "max-params"
    ∷ text "max-switch-cases"
    ∷ text "max-interface-methods"
    ∷ text "isp-min-methods"
    ∷ text "isp-usage-ratio-percent"
    ∷ []

pub record CheckOptions : Type 0 where
  pub rules : Text
  pub profile : Text
  pub enabled_checks : Text
  pub format : Text
  pub analysis : Text
  pub show_version : Bool
  pub include_tests : Bool
  pub fail : Bool
  pub cache : Bool
  pub fail_level : Text
  pub max_methods : ℤ
  pub max_func_lines : ℤ
  pub max_params : ℤ
  pub max_switch_cases : ℤ
  pub max_interface_methods : ℤ
  pub isp_min_methods : ℤ
  pub isp_usage_ratio_percent : ℤ
  pub config_path : Text
  pub baseline_path : Text
  pub write_baseline_path : Text
  pub baseline_reason : Text
  pub baseline_owner : Text
  pub baseline_expires : Text
  pub baseline_stale : Text
  pub baseline_expired : Text
  pub cache_dir : Text
  pub cache_debug : Bool
  pub print_config : Bool
  pub baseline_prune : Bool
  pub quiet : Bool
  pub thresholds : Map ℤ
  pub paths : List Text
  pub set : Map Bool

-- The options before any argument is parsed: the defaults of the flags.
unfoldable pub flag_defaults : CheckOptions
flag_defaults = record {
  rules = text "S,O,L,I,D";
  profile = profile_stable;
  enabled_checks = [];
  format = text "text";
  analysis = text "auto";
  show_version = false;
  include_tests = false;
  fail = true;
  cache = true;
  fail_level = severity_warning;
  max_methods = default_config.max_methods_per_type;
  max_func_lines = default_config.max_func_lines;
  max_params = default_config.max_func_params;
  max_switch_cases = default_config.max_type_switch_cases;
  max_interface_methods = default_config.max_interface_methods;
  isp_min_methods = default_config.isp_min_methods;
  isp_usage_ratio_percent = default_config.isp_usage_ratio_percent;
  config_path = [];
  baseline_path = [];
  write_baseline_path = [];
  baseline_reason = [];
  baseline_owner = [];
  baseline_expires = [];
  baseline_stale = text "warn";
  baseline_expired = text "warn";
  cache_dir = [];
  cache_debug = false;
  print_config = false;
  baseline_prune = false;
  quiet = false;
  thresholds = [];
  paths = [];
  set = [];
}

pub data OptionError : Type 0 where
  help bad_flags : OptionError
  unknown_format unknown_analysis unknown_profile unknown_fail_level : Text → OptionError
  unknown_stale unknown_expired : Text → OptionError
  conflicting_thresholds : List Text → OptionError

pub data ThresholdArgument : Type 0 where
  not_key_value : ThresholdArgument
  not_an_integer : Text → Text → ThresholdArgument

-- The part after the `=`, none where there is no `=`.
abbrev add_parsed :
    (Text → Option ℤ) → CheckOptions → Option (Text × Text) → Result ThresholdArgument CheckOptions
add_parsed atoi options none = err not_key_value
add_parsed atoi options (some (key, raw)) =
    let k = trim_space key in
    let number : Result ThresholdArgument CheckOptions = elim (atoi (trim_space raw)) [
      | none ↦ err (not_an_integer k raw)
      | some v ↦ ok (record options { thresholds = insert k v options.thresholds })
    ] in
    if length k == 0 then err not_key_value else number

unfoldable pub add_threshold :
    (Text → Option ℤ) → CheckOptions → Text → Result ThresholdArgument CheckOptions
add_threshold atoi options value = add_parsed atoi options (cut 61 value)

-- strings.ReplaceAll(name, "-", "_")
abbrev pub threshold_key : Text → Text
threshold_key name = replace_byte 45 95 name

abbrev pub sets_twice : CheckOptions → Text → Bool
sets_twice options name =
    is_some (lookup (threshold_key name) options.thresholds) && flag name options.set

abbrev conflict_text : Text → Text
conflict_text name = text "-" ++ (name ++ (text " and -threshold " ++ threshold_key name))

-- What is returned for the conflicts that the loop has found.
abbrev pub no_conflicts : List Text → Result OptionError (Unit {0})
no_conflicts [] = ok tt
no_conflicts (c ∷ conflicts) = err (conflicting_thresholds (sort_by (λ s. s) (c ∷ conflicts)))

unfoldable pub threshold_flag_conflict : CheckOptions → Result OptionError (Unit {0})
threshold_flag_conflict options =
    no_conflicts (map conflict_text (keep (sets_twice options) legacy_threshold_flags))

unfoldable pub validate : CheckOptions → Result OptionError (Unit {0})
validate options =
    let conflict = threshold_flag_conflict options in
    if not (listed options.format (text "text" ∷ text "json" ∷ text "sarif" ∷ []))
    then err (unknown_format options.format)
    else if not (listed options.analysis (text "auto" ∷ text "syntax" ∷ text "types" ∷ []))
    then err (unknown_analysis options.analysis)
    else if not (listed options.profile (profile_stable ∷ profile_all ∷ profile_calibration ∷ []))
    then err (unknown_profile options.profile)
    else if not (valid_fail_level options.fail_level)
    then err (unknown_fail_level options.fail_level)
    else if not (listed options.baseline_stale (text "ignore" ∷ text "warn" ∷ text "error" ∷ []))
    then err (unknown_stale options.baseline_stale)
    else if not (listed options.baseline_expired (text "warn" ∷ text "error" ∷ []))
    then err (unknown_expired options.baseline_expired)
    else conflict

abbrev or_here : List Text → List Text
or_here [] = text "." ∷ []
or_here (path ∷ paths) = path ∷ paths

-- `parse` is what Go's flag package makes of the defaults and the arguments.
unfoldable pub parse_check_options :
    (CheckOptions → List Text → Result OptionError CheckOptions)
    → List Text
    → Result OptionError CheckOptions
parse_check_options parse args = do
  parsed ← parse flag_defaults args
  let options : CheckOptions = record parsed { paths = or_here parsed.paths }
  _ ← validate options
  ok options
