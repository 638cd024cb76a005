-- ===== src/Examples/Selection.antt =====
-- internal/analyzer/registry.go and plan.go on small inputs.
use solidify.Base.{
  keep, all, All, text, text_eq, Map, lookup, insert, flag, listed, distinct, index_by, is_ok, ◌≡◌,
  refl, Bool, true, false, ◌&&◌, List, [], ◌∷◌, map, ok, err,
}
use solidify.Ids.{
  CheckId, profile_stable, rule_isp, check_isp_fat_interface, check_isp_usage_ratio,
  check_isp_consumer_role, rule_srp,
}
use solidify.Registry.Check.{supports}
use solidify.Registry.Table.{check_registry}
use solidify.Registry.Index.{
  check_id, check_metadata, check_by_id, build_check_index, is_known_check_id,
}
use solidify.Registry.Selection.{
  valid_profile, registered, collect_enabled, collect_disabled, in_profile, family_enabled, selects,
  resolve_check_selection, selected_check_ids, resolve_profile, unknown_enabled,
}
use solidify.Registry.Resolve.{
  selected_spec, resolve_check_selection-is_ok, resolve_check_selection-selects,
  family_enabled_by_id, may_disable,
}
use solidify.Plan.Groups.{build_groups, plan_check, open_group, append_check}
use solidify.Plan.{PlanConfig, ExecutionPlan, new_execution_plan, resolve_surface, includes}
use solidify.Plan.Partition.{
  checks_named, planned_checks, IsRunnable, new_execution_plan-IsRunnable,
  new_execution_plan-groups,
}
use solidify.Plan.Grouping.{group_name}

-- What a run of the selection unfolds.
unfoldable pub selection_program : Unit {0}
unfolding resolve_check_selection valid_profile registered collect_enabled collect_disabled
    in_profile family_enabled selects check_registry check_metadata check_by_id build_check_index
    selected_check_ids index_by lookup insert listed text_eq
selection_program = tt

-- The stable checks of the family SOLID-I, without the usage ratio, with the consumer role.
abbrev isp_rules : Map Bool
isp_rules = (rule_isp, true) ∷ []

abbrev isp_enabled : List CheckId
isp_enabled = check_isp_consumer_role ∷ []

abbrev isp_disabled : List CheckId
isp_disabled = check_isp_usage_ratio ∷ []

isp_selection : Map Bool
unfolding selection_program
isp_selection = elim (resolve_check_selection profile_stable isp_rules isp_enabled isp_disabled) [
  | ok selection ↦ selection
  | err _ ↦ []
]

isp_resolved :
    resolve_check_selection profile_stable isp_rules isp_enabled isp_disabled ≡ ok isp_selection
unfolding selection_program isp_selection
isp_resolved = refl

isp_selected :
    selected_check_ids isp_selection
    ≡ check_isp_fat_interface ∷ check_isp_consumer_role ∷ text "SOLID-I/stub-implementation" ∷ []
unfolding selection_program isp_selection
isp_selected = refl

unknown_check :
    resolve_check_selection [] [] (text "SOLID-X/none" ∷ []) []
    ≡ err (unknown_enabled (text "SOLID-X/none"))
unfolding selection_program
unknown_check = refl

resolve_check_selection-is_ok_example :
    is_ok (resolve_check_selection profile_stable isp_rules isp_enabled isp_disabled) ≡ (
      valid_profile (resolve_profile profile_stable)
      && all registered isp_enabled
      && all (may_disable isp_enabled) isp_disabled)
resolve_check_selection-is_ok_example =
    resolve_check_selection-is_ok profile_stable isp_rules isp_enabled isp_disabled

resolve_check_selection-selects_example :
    flag check_isp_consumer_role isp_selection
    ≡ selected_spec profile_stable isp_rules isp_enabled isp_disabled
        (check_metadata check_isp_consumer_role)
resolve_check_selection-selects_example =
    resolve_check_selection-selects profile_stable isp_rules isp_enabled isp_disabled
      check_isp_consumer_role isp_resolved

family_enabled_by_id_example :
    (is_known_check_id rule_srp ≡ true)
    × (is_ok (resolve_check_selection profile_stable [] (check_isp_usage_ratio ∷ rule_srp ∷ []) [])
        ≡ false)
unfolding listed text_eq
family_enabled_by_id_example =
    family_enabled_by_id profile_stable [] (check_isp_usage_ratio ∷ rule_srp ∷ []) [] rule_srp refl
      refl

-- What a run of the planning unfolds.
unfoldable pub plan_program : Unit {0}
unfolding selection_program new_execution_plan build_groups plan_check open_group append_check
    supports
plan_program = tt

abbrev isp_config : PlanConfig
isp_config = record {
  profile = profile_stable;
  analysis_mode = [];
  enabled_checks = isp_enabled;
  disabled_checks = isp_disabled;
}

abbrev empty_plan : ExecutionPlan
empty_plan = record { profile = []; mode = []; surface = 0; selected = []; groups = [] }

isp_plan : ExecutionPlan
unfolding plan_program
isp_plan = elim (new_execution_plan isp_config isp_rules 0) [ ok plan ↦ plan | err _ ↦ empty_plan ]

isp_planned : new_execution_plan isp_config isp_rules 0 ≡ ok isp_plan
unfolding plan_program isp_plan
isp_planned = refl

one_group : map group_name isp_plan.groups ≡ text "isp-package" ∷ []
unfolding plan_program isp_plan
one_group = refl

new_execution_plan-IsRunnable_example :
    (distinct (map group_name isp_plan.groups) ≡ true) × All IsRunnable isp_plan.groups
new_execution_plan-IsRunnable_example =
    new_execution_plan-IsRunnable isp_config isp_rules 0 isp_planned

new_execution_plan-groups_example :
    (includes isp_plan check_isp_fat_interface
      ≡ listed check_isp_fat_interface
          (map check_id (planned_checks isp_selection (resolve_surface 0))))
    × (checks_named (text "isp-package") isp_plan.groups
        ≡ map check_id (
            keep
              (λ c. text_eq c.runner_group (text "isp-package"))
              (planned_checks isp_selection (resolve_surface 0))))
new_execution_plan-groups_example =
    new_execution_plan-groups isp_config isp_rules 0 check_isp_fat_interface (text "isp-package")
      isp_planned isp_resolved
