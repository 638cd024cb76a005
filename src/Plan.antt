-- ===== src/Plan.antt =====
-- internal/analyzer/plan.go: the execution plan, its groups and the runner of a group. The plan's
-- identity is a SHA-256 digest of the selection for display and cache keys; it is left out.
pub mod Groups
pub mod Runners
pub mod Grouping
pub mod Partition
use solidify.Base.{
  Text, text, Bool, List, [], ◌∷◌, Map, flag, map, keep, Result, ok, err, ◌>>=◌, if◌then◌else◌,
  ◌==◌,
}
use solidify.Ids.{CheckId, Profile}
use solidify.Registry.Check.{Surface, surface_cli}
use solidify.Registry.Table.{check_registry}
use solidify.Registry.Selection.{
  SelectionError, resolve_profile, resolve_check_selection, selected_check_ids,
}
use Groups.{ExecutionGroup, empty_state, build_groups}

-- The settings of the configuration that the plan reads.
pub record PlanConfig : Type 0 where
  pub profile : Profile
  pub analysis_mode : Text
  pub enabled_checks : List CheckId
  pub disabled_checks : List CheckId

pub record ExecutionPlan : Type 0 where
  pub profile : Profile
  pub mode : Text
  pub surface : Surface
  pub selected : Map Bool
  pub groups : List ExecutionGroup

abbrev pub resolve_mode : Text → Text
resolve_mode [] = text "auto"
resolve_mode mode = mode

abbrev pub resolve_surface : Surface → Surface
resolve_surface surface = if surface == 0 then surface_cli else surface

unfoldable pub new_execution_plan :
    PlanConfig → Map Bool → Surface → Result SelectionError ExecutionPlan
new_execution_plan cfg rules surface = do
  selection ← resolve_check_selection cfg.profile rules cfg.enabled_checks cfg.disabled_checks
  let s = build_groups selection (resolve_surface surface) check_registry empty_state
  ok (record {
    profile = resolve_profile cfg.profile;
    mode = resolve_mode cfg.analysis_mode;
    surface = resolve_surface surface;
    selected = s.selected;
    groups = s.groups;
  })

unfoldable pub includes : ExecutionPlan → CheckId → Bool
includes plan id = flag id plan.selected

unfoldable pub plan_check_ids : ExecutionPlan → List CheckId
plan_check_ids plan = selected_check_ids plan.selected
