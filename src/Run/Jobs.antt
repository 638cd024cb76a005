-- ===== src/Run/Jobs.antt =====
-- internal/analyzer/run.go and plan.go: the jobs of a plan's package groups and what each reports,
-- with the cache turned off. What the checks themselves report is a parameter.
use solidify.Base.{
  if◌then◌else◌, keep, Text, listed, Bool, true, false, not, none, some, List, [], ◌∷◌, ◌++◌, map,
}
use solidify.Registry.Check.{Check, Scope, scope_package, scope_program}
use solidify.Issues.Issue.{Issue}
use solidify.Plan.Groups.{ExecutionGroup}
use solidify.Plan.Runners.{runner_for_group}
use solidify.Suppression.Directives.{SourceFile}

pub record Package : Type 0 where
  pub files : List SourceFile
  pub pkg_path : Text
  pub type_complete : Bool
  pub analysis_root : Text
  pub filtered_type_err : Text

-- What the runner functions of a registered check report.
pub record CheckRunners : Type 0 where
  pub run_package : Check → Package → List Issue
  pub run_program : Check → List Package → List Issue

pub record PackageJob : Type 0 where
  pub pkg : Package
  pub group : ExecutionGroup
  pub check : Check

unfoldable pub filter_group_issues : List Issue → ExecutionGroup → List Issue
filter_group_issues issues group = keep (λ i. listed i.check group.checks) issues

-- The inner loop over the packages.
unfoldable pub group_jobs : ExecutionGroup → Check → List Package → List PackageJob
group_jobs group check [] = []
group_jobs group check (pkg ∷ pkgs) =
    (record { pkg = pkg; group = group; check = check }) ∷ group_jobs group check pkgs

abbrev pub is_package_scope : Scope → Bool
is_package_scope scope_package = true
is_package_scope scope_program = false

-- The jobs that runPackageScopedChecks hands to the workers.
unfoldable pub package_jobs : List ExecutionGroup → List Package → List PackageJob
package_jobs [] pkgs = []
package_jobs (group ∷ groups) pkgs =
    let rest = package_jobs groups pkgs in
    if not (is_package_scope group.scope) then rest else elim (runner_for_group group) [
      | some check ↦ group_jobs group check pkgs ++ rest
      | none ↦ rest
    ]

abbrev pub with_root : Text → Issue → Issue
with_root root i = record i { analysis_root = root }

-- What a worker sends for a job.
unfoldable pub job_issues : CheckRunners → PackageJob → List Issue
job_issues r job =
    map (with_root job.pkg.analysis_root)
      (filter_group_issues (r.run_package job.check job.pkg) job.group)

unfoldable pub run_program_scoped_checks :
    CheckRunners → List ExecutionGroup → List Package → List Issue
run_program_scoped_checks r [] pkgs = []
run_program_scoped_checks r (group ∷ groups) pkgs =
    let rest = run_program_scoped_checks r groups pkgs in
    if is_package_scope group.scope then rest else elim (runner_for_group group) [
      | some check ↦ filter_group_issues (r.run_program check pkgs) group ++ rest
      | none ↦ rest
    ]
