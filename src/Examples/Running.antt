-- ===== src/Examples/Running.antt =====
-- internal/analyzer: run.go and control.go on small inputs.
use solidify.Base.{
  keep, text, text_eq, lookup, listed, distinct, trim_left, trim_right, Perm, ℕ, ◌≤◌, ◌≡◌, refl,
  ◌↔◌, ◌⊎◌, true, false, ◌||◌, none, some, List, [], ◌∷◌, ◌++◌, arith, pos,
}
use solidify.Ids.{check_isp_fat_interface, rule_isp, severity_warning}
use solidify.Registry.Check.{Check, scope_package, stable, equivalent, run_isp_check}
use solidify.Issues.Issue.{Issue}
use solidify.Plan.Groups.{ExecutionGroup}
use solidify.Run.Jobs.{Package, CheckRunners, PackageJob, job_issues}
use solidify.Run.Pool.{
  Pool, pool, Step, Steps, take, close, leave, send, send_done, receive, stay, next, start,
  IsFinished, worker_count, issues_of,
}
use solidify.Run.Delivered.{execute_package_jobs-perm}
use solidify.Run.Progress.{execute_package_jobs-finishes}
use solidify.Run.Owners.{
  filter_mode_unsupported, issue_owner_index, survives, filter_mode_unsupported-survives,
}
use solidify.Exclude.Glob.{
  SegmentMatch, trim_slashes, suffixes, match_parts, match_deeper, doublestar_match,
}
use solidify.Exclude.Matches.{elements, MatchesInside, doublestar_match_iff}
use solidify.Paths.Clean.{split_on}
use solidify.Config.Settings.{default_config}
use solidify.Config.Thresholds.{effective_thresholds}
use solidify.Config.File.{FileConfig, apply, valid_lookup, apply-effective}
use solidify.Config.Validation.{overridden}
use solidify.Examples.Findings.{two_findings}

abbrev pub isp_check : Check
isp_check = record {
  id = check_isp_fat_interface;
  rule = rule_isp;
  help_uri = [];
  scope = scope_package;
  maturity = stable;
  syntax = equivalent;
  surfaces = 7;
  default_sev = severity_warning;
  runner_group = text "isp-package";
  run_package = some run_isp_check;
  run_program = none;
}

abbrev pub isp_group : ExecutionGroup
isp_group = record {
  name = text "isp-package";
  scope = scope_package;
  checks = check_isp_fat_interface ∷ [];
}

abbrev pub store_package : Package
store_package = record {
  files = (record { filename = text "/work/store.go"; declarations = []; comments = [] }) ∷ [];
  pkg_path = text "example.com/store";
  type_complete = true;
  analysis_root = text "/work";
  filtered_type_err = [];
}

abbrev test_runners : CheckRunners
test_runners = record { run_package = λ c p. two_findings; run_program = λ c ps. [] }

abbrev job : PackageJob
job = record { pkg = store_package; group = isp_group; check = isp_check }

abbrev two_jobs : List PackageJob
two_jobs = job ∷ job ∷ []

abbrev both : List Issue
both = job_issues test_runners job ++ job_issues test_runners job

-- One processor: its worker takes a job, sends what it found, and so on, and says that it is done.
abbrev one_worker : Pool
one_worker = pool [] true 0 [] 0 [] 1 both

begun : Steps test_runners 1 (start 1 two_jobs) (pool (job ∷ []) false 0 (job ∷ []) 0 [] 0 []) 1
begun = next (take _ _ _ 0 _ _ _ _ _) stay

one_by_one : Steps test_runners 1 (start 1 two_jobs) one_worker 10
one_by_one = next (take _ _ _ 0 _ _ _ _ _) (
    next (send _ _ _ [] _ _ _ _ _ _ (omega arith)) (
      next (receive _ _ _ _ _ _ _ _ _ (omega arith)) (
        next (take _ _ _ 0 _ _ _ _ _) (
          next (send _ _ _ [] _ _ _ _ _ _ (omega arith)) (
            next (close _ _ _ _ _ _) (
              next (receive _ _ _ _ _ _ _ _ _ (omega arith)) (
                next (leave _ 0 _ _ _ _ _) (
                  next (send_done _ _ _ _ 0 _ _ _ (omega arith))
                    (next (receive _ _ _ _ _ _ _ _ _ (omega arith)) stay)))))))))

execute_package_jobs-perm_example : Perm both (issues_of test_runners two_jobs)
unfolding worker_count
execute_package_jobs-perm_example =
    execute_package_jobs-perm test_runners 1 two_jobs one_by_one refl

execute_package_jobs-finishes_example :
    (1 ≤ 10)
    × (IsFinished 1 (pool (job ∷ []) false 0 (job ∷ []) 0 [] 0 []) × ◌≡◌ {A = ℕ} 1 10
        ⊎ ((q : Pool) × Step test_runners 1 (pool (job ∷ []) false 0 (job ∷ []) 0 [] 0 []) q))
unfolding worker_count
execute_package_jobs-finishes_example =
    execute_package_jobs-finishes test_runners 1 two_jobs (omega arith) begun

filter_mode_unsupported-survives_example :
    filter_mode_unsupported two_findings (issue_owner_index (store_package ∷ [])) (text "auto")
    ≡ keep (survives (store_package ∷ []) (text "auto")) two_findings
filter_mode_unsupported-survives_example =
    filter_mode_unsupported-survives two_findings (store_package ∷ []) (text "auto")

-- An element matches itself, and a star matches every element.
abbrev star_match : SegmentMatch
star_match pattern v = some (text_eq pattern v || text_eq pattern (text "*"))

glob_program : Unit {0}
unfolding doublestar_match match_parts match_deeper suffixes split_on trim_slashes trim_left
    trim_right text_eq
glob_program = tt

any_depth : doublestar_match star_match (text "gen/**/*") (text "/app/gen/v1/api.go") ≡ true
unfolding glob_program
any_depth = refl

doublestar_match_iff_example :
    (doublestar_match star_match (text "gen/**/*") (text "/app/gen/v1/api.go") ≡ true) ↔ (
      (trim_slashes (text "gen/**/*") ≡ trim_slashes (text "/app/gen/v1/api.go"))
      ⊎ MatchesInside star_match
          (elements (text "gen/**/*"))
          (elements (text "/app/gen/v1/api.go")))
doublestar_match_iff_example =
    doublestar_match_iff star_match (text "gen/**/*") (text "/app/gen/v1/api.go")

abbrev small_file : FileConfig
small_file = record {
  profile = [];
  enabled_rules = [];
  enabled_checks = [];
  excludes = [];
  thresholds = (text "max_params", pos 3) ∷ (text "unknown", pos 1) ∷ [];
  severities = [];
  allow_dependencies = [];
  disabled_checks = [];
  fail_level = [];
  ocp_discriminator_fields = [];
  ocp_allow_dispatch_types = [];
  ocp_allow_packages = [];
  ocp_logic_packages = [];
  ocp_implementation_packages = [];
  ocp_composition_roots = [];
  dip_infra_error_packages = [];
  dip_transport_types = [];
  srp_orchestrator_suffixes = [];
  isp_wiring_aggregate_suffixes = [];
  isp_execution_methods = [];
  dip_domain_packages = [];
  dip_data_bag_suffixes = [];
  dip_detail_imports = [];
}

apply-effective_example :
    lookup (text "max_params") (effective_thresholds (apply small_file default_config))
    ≡ overridden
        (valid_lookup (text "max_params") small_file.thresholds)
        (lookup (text "max_params") (effective_thresholds default_config))
unfolding distinct listed text_eq
apply-effective_example = apply-effective small_file default_config (text "max_params") refl
