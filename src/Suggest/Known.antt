-- ===== src/Suggest/Known.antt =====
-- internal/analyzer/control_yaml.go and thresholds.go: the names that suggestions are taken from.
use solidify.Base.{Text, text, sort_by, to_upper, trim_space, List, [], ◌∷◌, ◌++◌, map}
use solidify.Registry.Index.{registered_check_ids, rule_families}
use solidify.Config.Thresholds.{threshold_registry, spec_name}
use solidify.Suggest.Nearest.{nearest_known_field}

unfoldable pub threshold_names : List Text
threshold_names = sort_by (λ name. name) (map spec_name threshold_registry)

unfoldable pub nearest_known_threshold : Text → Text
nearest_known_threshold input = nearest_known_field input threshold_names

unfoldable pub nearest_known_check_id : Text → Text
nearest_known_check_id input = nearest_known_field input registered_check_ids

unfoldable pub nearest_known_severity_target : Text → Text
nearest_known_severity_target input =
    nearest_known_field input (rule_families ++ registered_check_ids)

unfoldable pub nearest_known_rule_code : Text → Text
nearest_known_rule_code input =
    nearest_known_field (to_upper (trim_space input))
      (text "S" ∷ text "O" ∷ text "L" ∷ text "I" ∷ text "D" ∷ [])
