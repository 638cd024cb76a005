-- ===== src/Examples/Settings.antt =====
-- internal/analyzer: control.go, control_yaml.go and paths.go on small inputs.
use solidify.Base.{
  All, Text, text, text_eq, Map, lookup, insert, listed, distinct, find_key, index_by, is_ok,
  to_lower, trim_left, trim_right, trim_space, replace_byte, has_prefix, without_prefix,
  trim_prefix, has_suffix, trim_suffix, ℤ, ◌≤◌, ◌<◌, ◌≡◌, refl, ◌≢◌, ◌↔◌, ◌⊎◌, true, false, List,
  [], ◌∷◌, ◌++◌, arith, ok, err, pos,
}
use solidify.Suggest.EditDistance.{edit_distance, first_row, fill_row, fill_rows, entry_at}
use solidify.Suggest.Levenshtein.{IsLeast, edit_distance-IsLeast}
use solidify.Suggest.Nearest.{
  normalize_field, nearest_in, nearest_known_field, suggestion_distance, nearest_known_field-least,
}
use solidify.Config.Settings.{Config, default_config}
use solidify.Config.Thresholds.{
  threshold_registry, threshold_spec, effective_thresholds, valid_threshold, valid_mode,
  check_range, validate_threshold_value, validate_specs, validate_config, apply_threshold_value,
  apply_each, apply_thresholds,
}
use solidify.Config.Validation.{
  IsInRange, overridden, validate_config_iff, apply_thresholds-effective,
}
use solidify.Paths.Clean.{clean, clean_parts, split_on, join, go_up, dot}
use solidify.Paths.Normalized.{normalized_slash_path, root_prefix, normalized_slash_path-inside}

kitten : edit_distance (text "kitten") (text "sitting") ≡ 3
unfolding edit_distance first_row fill_row fill_rows entry_at text_eq
kitten = refl

edit_distance-IsLeast_example :
    IsLeast (text "kitten") (text "sitting") (edit_distance (text "kitten") (text "sitting"))
edit_distance-IsLeast_example = edit_distance-IsLeast (text "kitten") (text "sitting")

abbrev rule_names : List Text
rule_names = text "SRP" ∷ text "ISP" ∷ []

suggestion_program : Unit {0}
unfolding nearest_known_field nearest_in normalize_field trim_space trim_left trim_right to_lower
    replace_byte edit_distance first_row fill_row fill_rows entry_at text_eq
suggestion_program = tt

suggested : nearest_known_field (text " isq ") rule_names ≡ text "ISP"
unfolding suggestion_program
suggested = refl

nearest_known_field-least_example :
    (nearest_known_field (text " isq ") rule_names ≡ [])
      × All (λ k. 3 ≤ suggestion_distance (text " isq ") k) rule_names
    ⊎ (listed (nearest_known_field (text " isq ") rule_names) rule_names ≡ true)
      × (suggestion_distance (text " isq ") (nearest_known_field (text " isq ") rule_names) < 3)
      × All
          (λ k.
            suggestion_distance (text " isq ") (nearest_known_field (text " isq ") rule_names)
            ≤ suggestion_distance (text " isq ") k)
          rule_names
unfolding suggestion_program
nearest_known_field-least_example =
    nearest_known_field-least (text " isq ") rule_names (omega arith)

-- What a run of the thresholds unfolds.
unfoldable pub settings_program : Unit {0}
unfolding apply_thresholds apply_each apply_threshold_value valid_threshold threshold_spec
    threshold_registry validate_config validate_specs validate_threshold_value check_range
    valid_mode default_config find_key lookup insert listed distinct text_eq effective_thresholds
    index_by
settings_program = tt

abbrev two_thresholds : Map ℤ
two_thresholds = (text "max_methods", pos 7) ∷ (text "max_params", pos 4) ∷ []

changed : Config
unfolding settings_program
changed = elim (apply_thresholds default_config two_thresholds) [
  | ok cfg ↦ cfg
  | err _ ↦ default_config
]

changed_applied : apply_thresholds default_config two_thresholds ≡ ok changed
unfolding settings_program changed
changed_applied = refl

validate_config_iff_example :
    (is_ok (validate_config changed) ≡ true)
    ↔ (All (IsInRange changed) threshold_registry × (valid_mode changed.analysis_mode ≡ true))
validate_config_iff_example = validate_config_iff changed

apply_thresholds-effective_example :
    (lookup (text "max_params") (effective_thresholds changed)
      ≡ overridden
          (lookup (text "max_params") two_thresholds)
          (lookup (text "max_params") (effective_thresholds default_config)))
    × All (IsInRange changed) threshold_registry
    × (valid_mode changed.analysis_mode ≡ true)
unfolding listed distinct text_eq
apply_thresholds-effective_example =
    apply_thresholds-effective two_thresholds default_config (text "max_params") refl
      changed_applied

abbrev work_root : Text
work_root = text "/work/./app"

abbrev work_file : Text
work_file = text "/work/app/cmd//main.go"

paths_program : Unit {0}
unfolding normalized_slash_path clean clean_parts split_on join go_up text_eq has_prefix has_suffix
    trim_prefix trim_suffix without_prefix
paths_program = tt

work_path : normalized_slash_path work_root work_file ≡ (text "cmd/main.go", true)
unfolding paths_program
work_path = refl

normalized_slash_path-inside_example :
    ((normalized_slash_path work_root work_file).1 ≡ true
      → ((normalized_slash_path work_root work_file).0 ≡ dot) × (clean work_file ≡ clean work_root)
        ⊎ (root_prefix work_root ++ (normalized_slash_path work_root work_file).0
            ≡ clean work_file))
    × ((normalized_slash_path work_root work_file).1 ≡ false
        → ((normalized_slash_path work_root work_file).0 ≡ clean work_file)
          × (clean work_file ≢ clean work_root)
          × (has_prefix (clean work_file) (root_prefix work_root) ≡ false))
unfolding paths_program
normalized_slash_path-inside_example = normalized_slash_path-inside work_root work_file refl refl
