-- ===== src/Examples/Coverage.antt =====
-- internal/analyzer/stats.go on a plan of one group.
use solidify.Examples.Findings.{finding}
use solidify.Examples.Selection.{selection_program}
use solidify.Registry.Index.{check_metadata}
use solidify.Paths.Clean.{clean, split_on, join, go_up, clean_parts}
use solidify.Run.Owners.{filter_mode_unsupported, issue_owner_index}
use solidify.Run.Coverage.{package_type_coverage}
use solidify.Run.Covered.{check_coverage_for-survives}
use solidify.Base.{
  text, text_eq, listed, distinct, find_key, has_prefix, ◌≡◌, refl, Bool, true, false, none, some,
  List, [], ◌∷◌,
}
use solidify.Ids.{check_isp_fat_interface}
use solidify.Registry.Check.{Check, surface_cli, supports}
use solidify.Config.Settings.{default_config}
use solidify.Plan.{ExecutionPlan, includes}
use solidify.Run.Statistics.{new_run_stats, scope_name}
use solidify.Run.Tally.{Call, call_all, entry_of, tally_of, fresh_entry, execution-tally}
use solidify.Run.Coverage.{missing_architecture_requirement, check_coverage_for}
use solidify.Examples.Running.{isp_group, isp_check, store_package}

abbrev small_plan : ExecutionPlan
small_plan = record {
  profile = text "stable";
  mode = text "auto";
  surface = surface_cli;
  selected = (check_isp_fat_interface, true) ∷ [];
  groups = isp_group ∷ [];
}

abbrev call : Bool → Bool → Call
call hit used = record { group = text "isp-package"; cache_hit = hit; cache_used = used }

-- A miss, a hit, and a job without the cache.
abbrev three_calls : List Call
three_calls = call false true ∷ call true true ∷ call false false ∷ []

execution-tally_example :
    entry_of
      (text "isp-package")
      (call_all three_calls (some (new_run_stats small_plan default_config)))
    ≡ tally_of (text "isp-package") three_calls (fresh_entry (text "isp-package") small_plan)
unfolding distinct listed
execution-tally_example =
    execution-tally small_plan default_config (text "isp-package") three_calls refl

two_executions :
    tally_of (text "isp-package") three_calls (fresh_entry (text "isp-package") small_plan)
    ≡ some (record {
      name = text "isp-package";
      scope = text "package";
      executions = 2;
      cache_hits = 1;
      cache_misses = 1;
    })
unfolding text_eq find_key scope_name
two_executions = refl

-- The registry's entry for the check.
unfoldable fat_interface_check : Check
fat_interface_check = elim (check_metadata check_isp_fat_interface) [
  | some c ↦ c
  | none ↦ isp_check
]

found : check_metadata check_isp_fat_interface ≡ some fat_interface_check
unfolding selection_program fat_interface_check
found = refl

typed_program : Unit {0}
unfolding selection_program fat_interface_check check_coverage_for supports includes
    missing_architecture_requirement package_type_coverage clean split_on join go_up clean_parts
    has_prefix
typed_program = tt

check_coverage_for-survives_example :
    filter_mode_unsupported
      (finding (text "/work/store.go") ∷ [])
      (issue_owner_index (store_package ∷ []))
      (text "auto")
    ≡ finding (text "/work/store.go") ∷ []
unfolding typed_program
check_coverage_for-survives_example =
    check_coverage_for-survives fat_interface_check small_plan default_config (store_package ∷ [])
      (finding (text "/work/store.go") ∷ []) refl ((found, refl), tt)
