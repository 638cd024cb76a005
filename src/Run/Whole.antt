-- ===== src/Run/Whole.antt =====
-- internal/analyzer/run.go: RunPlan, with the cache turned off. The jobs are run one after the other;
-- Pool shows what the workers make of them, and Sorted why that does not matter. The removal of
-- generated and excluded files (workspace.go), which type-checks packages again, is a parameter, and
-- so is the receiver that encloses a finding.
use solidify.Base.{
  ◌==◌, if◌then◌else◌, is_some, length, all, Text, text, Map, lookup, insert, ℕ, ◌+◌, false, ◌||◌,
  Option, none, some, List, [], ◌∷◌, ◌++◌, map,
}
use solidify.Issues.Issue.{Issue, Platform, issue_identity_key}
use solidify.Issues.Evidence.{derive_issue_identity}
use solidify.Issues.Finalize.{is_nameless, complete_identity}
use solidify.Paths.Clean.{clean}
use solidify.Config.Settings.{Config}
use solidify.Suppression.Directives.{SourceFile}
use solidify.Suppression.Locations.{apply_suppressions}
use solidify.Plan.{ExecutionPlan}
use solidify.Plan.Groups.{ExecutionGroup}
use solidify.Plan.Runners.{runner_for_group}
use solidify.Run.Jobs.{
  Package, CheckRunners, PackageJob, is_package_scope, package_jobs, run_program_scoped_checks,
}
use solidify.Run.Pool.{issues_of}
use solidify.Run.Owners.{issue_owner_index, filter_mode_unsupported, stamp_analysis_roots}
use solidify.Run.Statistics.{RunStats, new_run_stats, execution}
use solidify.Run.Coverage.{ExecutionStats, snapshot}
use solidify.Run.Sorted.{sort_issues}
use solidify.Run.Identities.{disambiguate_identities}

pub record Analyzer : Type 0 where
  pub platform : Platform
  pub checks : CheckRunners
  pub apply_file_policy : List Package → List Text → List Package
  pub enclosing_receiver : List Package → Issue → Text

-- internal/analyzer/workspace.go
unfoldable pub canonical_root : List Package → Text
canonical_root [] = []
canonical_root (pkg ∷ pkgs) =
    let rest = canonical_root pkgs in
    if length pkg.analysis_root == 0 then rest else pkg.analysis_root

abbrev pub files_of : List Package → List SourceFile
files_of [] = []
files_of (pkg ∷ pkgs) = pkg.files ++ files_of pkgs

-- A job without a cache counts as an execution of its group, neither as a hit nor as a miss.
unfoldable pub count_jobs : List PackageJob → Option RunStats → Option RunStats
count_jobs [] stats = stats
count_jobs (job ∷ jobs) stats = count_jobs jobs (execution stats job.group.name false false)

unfoldable pub count_program_groups : List ExecutionGroup → Option RunStats → Option RunStats
count_program_groups [] stats = stats
count_program_groups (group ∷ groups) stats =
    let counted : Option RunStats = elim (runner_for_group group) [
      | none ↦ stats
      | some _ ↦ execution stats group.name false false
    ] in
    count_program_groups groups (if is_package_scope group.scope then stats else counted)

-- The loop that derives missing identities from the package that owns the file.
unfoldable pub derive_missing : Platform → Map Package → Issue → Issue
derive_missing p owners i =
    let package_path : Text = elim (lookup (clean i.pos.filename) owners) [
      | none ↦ text "workspace"
      | some pkg ↦ pkg.pkg_path
    ] in
    let (subject, identity) = derive_issue_identity p i package_path in
    if is_nameless i then record i { subject = subject; identity = identity } else i

-- What FinalizeIssues leaves in the slice, also where it returns an error, which is dropped.
unfoldable pub finalize_in_place : Platform → Text → Map ℕ → ℕ → List Issue → List Issue
finalize_in_place p package_path seen index [] = []
finalize_in_place p package_path seen index (i ∷ issues) =
    let i' = complete_identity p package_path i in
    let key = issue_identity_key i' in
    let rest = finalize_in_place p package_path (insert key index seen) (index + 1) issues in
    i' ∷ (if is_nameless i' || is_some (lookup key seen) then issues else rest)

-- RunPlan from the findings of the checks on.
unfoldable pub refine_findings : Analyzer → List Package → Text → List Issue → List Issue
refine_findings a pkgs mode all =
    let owners = issue_owner_index pkgs in
    let stamped = stamp_analysis_roots all (canonical_root pkgs) in
    let sorted = sort_issues (filter_mode_unsupported stamped owners mode) in
    let unsuppressed = apply_suppressions sorted (files_of pkgs) in
    let derived = map (derive_missing a.platform owners) unsuppressed in
    finalize_in_place a.platform (text "workspace") [] 0
      (disambiguate_identities (a.enclosing_receiver pkgs) derived)

abbrev pub no_execution : ExecutionStats
no_execution = record {
  selected_checks = [];
  skipped_checks = [];
  groups = [];
  packages = [];
  check_coverage = [];
  warnings = [];
}

abbrev snapshot_of : List Package → Option RunStats → ExecutionStats
snapshot_of pkgs none = no_execution
snapshot_of pkgs (some stats) = snapshot stats (map some pkgs)

unfoldable pub run_plan :
    Analyzer → List Package → Config → ExecutionPlan → List Issue × ExecutionStats
run_plan a packages cfg plan =
    let pkgs = a.apply_file_policy packages cfg.excluded_files in
    let jobs = package_jobs plan.groups pkgs in
    let stats =
      count_program_groups plan.groups (count_jobs jobs (some (new_run_stats plan cfg))) in
    let all = issues_of a.checks jobs ++ run_program_scoped_checks a.checks plan.groups pkgs in
    (refine_findings a pkgs cfg.analysis_mode all, snapshot_of pkgs stats)
