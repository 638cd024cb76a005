-- ===== src/Run/Coverage.antt =====
-- internal/analyzer/stats.go: how far the packages' type information carried each check, and the
-- snapshot of a run. A nil package is none.
use solidify.Base.{
  ◌==◌, if◌then◌else◌, keep, Text, text, lookup, flag, listed, sort_by, ℕ, ◌+◌, Bool, true, false,
  not, ◌||◌, Option, none, some, List, [], ◌∷◌, ◌++◌, map,
}
use solidify.Ids.{
  CheckId, check_ocp_implementation_coupling, check_dip_layer_import, check_dip_hidden_construction,
  check_dip_wiring_outside_root, check_dip_infra_error_leak, check_dip_transport_leak,
}
use solidify.Registry.Check.{
  Check, SyntaxSupport, undeclared, equivalent, conservative, unavailable, Surface, surface_cli,
  surface_module_plugin, surface_go_plugin, supports,
}
use solidify.Registry.Table.{check_registry}
use solidify.Registry.Index.{check_id}
use solidify.Plan.{ExecutionPlan, includes, plan_check_ids}
use solidify.Plan.Groups.{ExecutionGroup}
use solidify.Config.Settings.{Config}
use solidify.Run.Jobs.{Package}
use solidify.Run.Statistics.{GroupExecutionStats, RunStats}

pub record CheckCoverageStats : Type 0 where
  pub check : CheckId
  pub status : Text
  pub reason : Text

unfoldable pub surface_name : Surface → Text
surface_name surface =
    if surface == surface_cli
    then text "CLI"
    else if surface == surface_module_plugin
    then text "module-plugin"
    else if surface == surface_go_plugin
    then text "go-plugin"
    else text "requested"

-- The first case of the switch, then the second.
abbrev coupling_checks : List CheckId
coupling_checks =
    check_ocp_implementation_coupling ∷ check_dip_layer_import ∷ check_dip_hidden_construction
    ∷ check_dip_wiring_outside_root ∷ []

abbrev leak_checks : List CheckId
leak_checks = check_dip_infra_error_leak ∷ check_dip_transport_leak ∷ []

abbrev pub is_nil {ℓ} : {A : Type ℓ} → List A → Bool
is_nil [] = true
is_nil (a ∷ l) = false

unfoldable pub missing_architecture_requirement : CheckId → Config → Text
missing_architecture_requirement id cfg =
    if listed id coupling_checks
    then (if is_nil cfg.ocp_logic_packages || is_nil cfg.ocp_implementation_packages
        then text
            "architecture.logic_packages and architecture.implementation_packages must both be configured"
        else [])
    else if listed id leak_checks
    then (if is_nil cfg.ocp_logic_packages
        then text "architecture.logic_packages must be configured"
        else [])
    else []

abbrev pub is_type_complete : Option Package → Bool
is_type_complete none = false
is_type_complete (some pkg) = pkg.type_complete

-- The complete and the incomplete packages.
unfoldable pub package_type_coverage : List (Option Package) → ℕ × ℕ
package_type_coverage [] = (0, 0)
package_type_coverage (pkg ∷ pkgs) =
    let (complete, incomplete) = package_type_coverage pkgs in
    if is_type_complete pkg then (complete + 1, incomplete) else (complete, incomplete + 1)

abbrev coverage : CheckId → Text → Text → CheckCoverageStats
coverage id status reason = record { check = id; status = status; reason = reason }

-- The switch over the check's support for syntax, where some package is incomplete.
unfoldable pub incomplete_coverage : CheckId → SyntaxSupport → ℕ → CheckCoverageStats
incomplete_coverage id equivalent complete =
    coverage id (text "syntax-equivalent")
      (text "this check is equivalent without complete go/types information")
incomplete_coverage id conservative complete = coverage id (text "conservative") (
    text
      "one or more packages lack complete go/types information; this check ran its conservative syntax fallback")
incomplete_coverage id unavailable complete =
    if complete == 0
    then coverage id (text "unavailable")
        (text "complete go/types information was unavailable for every analyzed package")
    else coverage id (text "partial") (
        text
          "complete go/types information was unavailable for one or more packages; findings from those packages were omitted")
incomplete_coverage id undeclared complete =
    coverage id (text "unavailable") (text "the check has no declared analysis-coverage contract")

unfoldable pub check_coverage_for :
    Check → ExecutionPlan → Config → List (Option Package) → CheckCoverageStats
check_coverage_for c plan cfg pkgs =
    let requirement = missing_architecture_requirement c.id cfg in
    let (complete, incomplete) = package_type_coverage pkgs in
    if not (supports c.surfaces plan.surface)
    then coverage c.id (text "unsupported-surface") (
        text "the "
        ++ (surface_name plan.surface ++ text " integration does not support this check"))
    else if not (includes plan c.id)
    then coverage c.id (text "not-selected")
        (text "not selected by the resolved profile, rule, and check configuration")
    else if not (is_nil requirement)
    then coverage c.id (text "configuration-unavailable") requirement
    else if is_nil pkgs
    then coverage c.id (text "no-packages") (text "no analyzable packages were loaded")
    else if incomplete == 0
    then coverage c.id (text "complete")
        (text "complete go/types information was available for every analyzed package")
    else incomplete_coverage c.id c.syntax complete

pub record PackageAnalysisStats : Type 0 where
  pub pkg_path : Text
  pub type_complete : Bool

pub record ExecutionStats : Type 0 where
  pub selected_checks : List CheckId
  pub skipped_checks : List CheckId
  pub groups : List GroupExecutionStats
  pub packages : List PackageAnalysisStats
  pub check_coverage : List CheckCoverageStats
  pub warnings : List Text

-- The loop over the packages, in its two results.
unfoldable pub package_stats : List (Option Package) → List PackageAnalysisStats
package_stats [] = []
package_stats (none ∷ pkgs) = package_stats pkgs
package_stats (some pkg ∷ pkgs) =
    record { pkg_path = pkg.pkg_path; type_complete = pkg.type_complete } ∷ package_stats pkgs

unfoldable pub filter_warnings : List (Option Package) → List Text
filter_warnings [] = []
filter_warnings (none ∷ pkgs) = filter_warnings pkgs
filter_warnings (some pkg ∷ pkgs) =
    let rest = filter_warnings pkgs in
    let warning =
      pkg.pkg_path
      ++ (text ": excluded files could not be removed from type information ("
          ++ (pkg.filtered_type_err
              ++ text "); their declarations stay visible to type-based checks")) in
    if is_nil pkg.filtered_type_err then rest else warning ∷ rest

-- The loop over the plan's groups.
unfoldable pub group_stats : RunStats → List ExecutionGroup → List GroupExecutionStats
group_stats s [] = []
group_stats s (g ∷ groups) = elim (lookup g.name s.groups) [
  | some entry ↦ entry ∷ group_stats s groups
  | none ↦ group_stats s groups
]

unfoldable pub snapshot : RunStats → List (Option Package) → ExecutionStats
snapshot s pkgs = record {
  selected_checks = plan_check_ids s.plan;
  skipped_checks = map check_id (keep (λ c. not (flag c.id s.plan.selected)) check_registry);
  groups = sort_by (λ g. g.name) (group_stats s s.plan.groups);
  packages = sort_by (λ p. p.pkg_path) (package_stats pkgs);
  check_coverage = map (λ c. check_coverage_for c s.plan s.config pkgs) check_registry;
  warnings = filter_warnings pkgs;
}
