-- ===== src/Registry/Index.antt =====
-- internal/analyzer/registry.go: the indexes over the registry.
use solidify.Base.{
  Text, Bool, true, Option, none, some, List, [], ◌∷◌, map, Map, flag, lookup, index_by,
}
use solidify.Ids.{CheckId, rule_srp, rule_ocp, rule_lsp, rule_isp, rule_dip}
use solidify.Registry.Check.{Check}
use solidify.Registry.Table.{check_registry, check_help_uri}

abbrev pub check_id : Check → CheckId
check_id c = c.id

unfoldable pub build_check_index : List Check → Map Check
build_check_index checks = index_by check_id (λ c. c) checks []

unfoldable pub check_by_id : Map Check
check_by_id = build_check_index check_registry

unfoldable pub check_metadata : CheckId → Option Check
check_metadata id = lookup id check_by_id

pub help_uri_for : CheckId → Text
help_uri_for id = elim (check_metadata id) [ some c ↦ c.help_uri | none ↦ check_help_uri id ]

unfoldable pub registered_check_ids : List CheckId
registered_check_ids = map check_id check_registry

abbrev pub rule_families : List Text
rule_families = rule_srp ∷ rule_ocp ∷ rule_lsp ∷ rule_isp ∷ rule_dip ∷ []

unfoldable pub build_known_check_ids : Map Bool
build_known_check_ids =
    index_by (λ id. id) (λ id. true) registered_check_ids
      (index_by (λ r. r) (λ r. true) rule_families [])

unfoldable pub is_known_check_id : Text → Bool
is_known_check_id id = flag id build_known_check_ids

unfoldable pub is_known_severity_target : Text → Bool
is_known_severity_target key = is_known_check_id key
