-- ===== src/Config/Yaml.antt =====
-- internal/analyzer/control_yaml.go: the decoded configuration file, its validation and what it
-- becomes. Go's YAML library decodes; the line that an error names is left out. The loops over maps
-- take their keys in the order given.
use solidify.Base.{
  ◌==◌, if◌then◌else◌, length, Text, text, text_eq, Map, insert, flag, listed, index_by, ◌>>=◌,
  Result, to_upper, trim_space, ltb_ℤ, ℤ, Bool, true, not, ◌||◌, List, [], ◌∷◌, ok, err, pos,
}
use solidify.Ids.{Severity, severity_note, severity_warning, severity_error}
use solidify.Registry.Index.{is_known_check_id, is_known_severity_target}
use solidify.Registry.Selection.{valid_profile}
use solidify.Exclude.Glob.{SegmentMatch, PatternError, validate_exclude_patterns}
use solidify.Suggest.Known.{
  nearest_known_threshold, nearest_known_check_id, nearest_known_severity_target,
  nearest_known_rule_code,
}
use solidify.Config.Thresholds.{ConfigError, valid_threshold, validate_threshold_value}
use solidify.Config.File.{FileConfig}

-- yamlFileConfig, with the fields of its sections.
pub record YamlFileConfig : Type 0 where
  pub profile : Text
  pub enabled_rules : List Text
  pub enabled_checks : List Text
  pub exclude : List Text
  pub thresholds : Map ℤ
  pub severity : Map Text
  pub allow_dependencies : List Text
  pub disabled_checks : List Text
  pub fail_level : Text
  pub orchestrator_suffixes : List Text
  pub discriminator_fields : List Text
  pub allow_dispatch_types : List Text
  pub allow_packages : List Text
  pub wiring_aggregate_suffixes : List Text
  pub execution_methods : List Text
  pub logic_packages : List Text
  pub implementation_packages : List Text
  pub composition_roots : List Text
  pub infra_error_packages : List Text
  pub transport_types : List Text
  pub domain_packages : List Text
  pub data_bag_suffixes : List Text
  pub detail_imports : List Text

-- The messages, each with what it names and its suggestion.
pub data SemanticError : Type 0 where
  bad_profile bad_fail_level : SemanticError
  unknown_rule unknown_enabled unknown_disabled unknown_target unknown_threshold_key :
      Text → Text → SemanticError
  bad_exclude : PatternError → SemanticError
  both_enabled_and_disabled bad_severity negative_threshold : Text → SemanticError
  bad_threshold : Text → ConfigError → SemanticError

abbrev pub Checked : Type 0
Checked = Result SemanticError (Unit {0})

unfoldable pub valid_severity : Severity → Bool
valid_severity value =
    text_eq value severity_note || text_eq value severity_warning || text_eq value severity_error

unfoldable pub valid_rule_code : Text → Bool
valid_rule_code value =
    listed (to_upper (trim_space value)) (text "S" ∷ text "O" ∷ text "L" ∷ text "I" ∷ text "D" ∷ [])

unfoldable pub validate_rules : List Text → Checked
validate_rules [] = ok tt
validate_rules (rule ∷ rules) =
    let rest = validate_rules rules in
    if valid_rule_code rule then rest else err (unknown_rule rule (nearest_known_rule_code rule))

unfoldable pub validate_enabled : List Text → Map Bool → Result SemanticError (Map Bool)
validate_enabled [] enabled = ok enabled
validate_enabled (id ∷ ids) enabled =
    let rest = validate_enabled ids (insert id true enabled) in
    if is_known_check_id id then rest else err (unknown_enabled id (nearest_known_check_id id))

unfoldable pub validate_disabled : Map Bool → List Text → Checked
validate_disabled enabled [] = ok tt
validate_disabled enabled (id ∷ ids) =
    let rest = validate_disabled enabled ids in
    if not (is_known_check_id id)
    then err (unknown_disabled id (nearest_known_check_id id))
    else if flag id enabled
    then err (both_enabled_and_disabled id)
    else rest

unfoldable pub validate_severities : Map Text → Checked
validate_severities [] = ok tt
validate_severities ((key, value) ∷ severities) =
    let rest = validate_severities severities in
    if not (is_known_severity_target key)
    then err (unknown_target key (nearest_known_severity_target key))
    else if not (valid_severity value)
    then err (bad_severity key)
    else rest

unfoldable pub validate_threshold : Text → ℤ → Checked
validate_threshold key value =
    let in_range : Checked = elim (validate_threshold_value key value) [
      | err e ↦ err (bad_threshold key e)
      | ok _ ↦ ok tt
    ] in
    if not (valid_threshold key)
    then err (unknown_threshold_key key (nearest_known_threshold key))
    else if ltb_ℤ value (pos 0)
    then err (negative_threshold key)
    else in_range

unfoldable pub validate_thresholds : Map ℤ → Checked
validate_thresholds [] = ok tt
validate_thresholds ((key, value) ∷ thresholds) = do
  _ ← validate_threshold key value
  validate_thresholds thresholds

unfoldable pub validate_excludes : SegmentMatch → List Text → Checked
validate_excludes g patterns = elim (validate_exclude_patterns g patterns) [
  | err e ↦ err (bad_exclude e)
  | ok _ ↦ ok tt
]

unfoldable pub validate_profile : Text → Checked
validate_profile p = if length p == 0 || valid_profile p then ok tt else err bad_profile

unfoldable pub validate_fail_level : Text → Checked
validate_fail_level level =
    let fail = trim_space level in
    if length fail == 0 || valid_severity fail then ok tt else err bad_fail_level

unfoldable pub validate_semantic : SegmentMatch → YamlFileConfig → Checked
validate_semantic g raw = do
  _ ← validate_profile raw.profile
  _ ← validate_rules raw.enabled_rules
  _ ← validate_excludes g raw.exclude
  enabled ← validate_enabled raw.enabled_checks []
  _ ← validate_disabled enabled raw.disabled_checks
  _ ← validate_fail_level raw.fail_level
  _ ← validate_severities raw.severity
  validate_thresholds raw.thresholds

-- The loops that copy the maps.
abbrev pub copy_map {ℓ} : {V : Type ℓ} → Map V → Map V
copy_map m = index_by (λ e. e.0) (λ e. e.1) m []

unfoldable pub to_file_config : YamlFileConfig → FileConfig
to_file_config raw = record {
  profile = raw.profile;
  enabled_rules = raw.enabled_rules;
  enabled_checks = raw.enabled_checks;
  excludes = raw.exclude;
  thresholds = copy_map raw.thresholds;
  severities = copy_map raw.severity;
  allow_dependencies = raw.allow_dependencies;
  disabled_checks = raw.disabled_checks;
  fail_level = trim_space raw.fail_level;
  ocp_discriminator_fields = raw.discriminator_fields;
  ocp_allow_dispatch_types = raw.allow_dispatch_types;
  ocp_allow_packages = raw.allow_packages;
  ocp_logic_packages = raw.logic_packages;
  ocp_implementation_packages = raw.implementation_packages;
  ocp_composition_roots = raw.composition_roots;
  dip_infra_error_packages = raw.infra_error_packages;
  dip_transport_types = raw.transport_types;
  srp_orchestrator_suffixes = raw.orchestrator_suffixes;
  isp_wiring_aggregate_suffixes = raw.wiring_aggregate_suffixes;
  isp_execution_methods = raw.execution_methods;
  dip_domain_packages = raw.domain_packages;
  dip_data_bag_suffixes = raw.data_bag_suffixes;
  dip_detail_imports = raw.detail_imports;
}

-- What the file gives, where it is decoded and valid.
unfoldable pub load_file_config : SegmentMatch → YamlFileConfig → Result SemanticError FileConfig
load_file_config g raw = do _ ← validate_semantic g raw; ok (to_file_config raw)
