-- ===== src/Examples/Commands.antt =====
-- internal/cli on a disk that keeps documents under their paths.
use solidify.Base.{
  length, Text, text, text_eq_refl, text_lt, Map, lookup, insert, lookup-insert, append_at,
  insert_with, sort_with, ℕ, ◌≡◌, refl, true, false, Option, none, some, List, [], ◌∷◌, map, arith,
  ok,
}
use solidify.Registry.Index.{check_metadata}
use solidify.Issues.Issue.{Issue}
use solidify.Cli.Policy.{CheckPolicy}
use solidify.Ids.{severity_warning, rule_srp, check_srp_large_type}
use solidify.Suppression.Directives.{
  validate_suppressions, validate_comments, suppression_directives, collect_suppression_metadata,
}
use solidify.Exclude.Glob.{excluded}
use solidify.Exclude.Severity.{apply_severity, override_severity}
use solidify.Baseline.Document.{Document, current}
use solidify.Baseline.Stale.{stale}
use solidify.Plan.Runners.{runner_for_group, runner_in}
use solidify.Run.Jobs.{
  package_jobs, group_jobs, job_issues, filter_group_issues, run_program_scoped_checks,
}
use solidify.Run.Owners.{
  own_files, own_packages, issue_owner_index, issue_package_type_complete, mode_supports,
  filter_mode_unsupported, stamp_analysis_roots, issue_less,
}
use solidify.Suppression.Locations.{apply_suppressions, issue_suppressed, location_has_suppression}
use solidify.Run.Sorted.{sort_issues}
use solidify.Run.Identities.{
  digits_of, add_member, group_members, update_at, add_receivers, count_place, number_places,
  disambiguate_members, disambiguate_keys, disambiguate_identities,
}
use solidify.Run.Whole.{
  Analyzer, canonical_root, derive_missing, finalize_in_place, refine_findings, run_plan,
  no_execution,
}
use solidify.Cli.Options.{CheckOptions, validate, threshold_flag_conflict, parse_check_options}
use solidify.Cli.Rules.{valid_fail_level, rank, has_severity_at_least, filter_issues}
use solidify.Cli.Commands.{
  System, load_document, AnalysisResult, printed, execute_analysis, analyse, write_document,
  write_baseline, read_baseline, apply_legacy_baseline_options, report_findings, check_policy,
  run_check_command,
}
use solidify.Cli.Dispatch.{
  baseline_on, baseline_operation, finish_update, change_baseline, render_baseline_diff, run,
  dispatch,
}
use solidify.Cli.Verdict.{reaches, not_accepted, baseline_of, check_policy-zero, check_policy-code}
use solidify.Cli.Reported.{execute_analysis-IsFinal}
use solidify.Issues.Finalize.{finalize_issues}
use solidify.Cli.Settling.{DecodesSaved, nothing_changed, baseline_on-settles}
use solidify.Examples.Findings.{finding, test_platform, finalized, finalize_program}
use solidify.Examples.Acceptance.{baseline_program}
use solidify.Examples.Running.{store_package}
use solidify.Examples.Files.{sources, options, resolved, policy_program}

abbrev large_type : ℕ → ℕ → Issue
large_type offset line = record (finding (text "/work/store.go")) {
  rule = rule_srp;
  check = check_srp_large_type;
  pos = record { filename = text "/work/store.go"; offset = offset; line = line; column = 1 };
  evidence = text "large type: type=Store";
}

-- Two findings with one identity, the later one first, and a finding of a check that is not selected.
abbrev analyzer : Analyzer
analyzer = record {
  platform = test_platform;
  checks = record {
    run_package = λ c pkg. large_type 90 9 ∷ large_type 40 5 ∷ finding (text "/work/store.go") ∷ [];
    run_program = λ c pkgs. [];
  };
  apply_file_policy = λ pkgs globs. pkgs;
  enclosing_receiver = λ pkgs i. [];
}

-- Every command line is that of `options`.
unfoldable system : System (Map Document)
system = record {
  parse_flags = λ defaults args. ok options;
  parse_format = λ args. some (text "json", 0);
  sources = sources;
  analyzer = analyzer;
  tool_version = text "dev";
  today = text "2026-01-31";
  load_workspace = λ policy. some (store_package ∷ []);
  print = λ output. printed;
  decode_document =
      λ path disk. elim (lookup path disk) [ none ↦ none | some d ↦ some (current d) ];
  save = λ path d disk. some (insert path d disk);
}

run_program : Unit {0}
unfolding package_jobs group_jobs job_issues filter_group_issues run_program_scoped_checks
    runner_for_group runner_in own_files own_packages issue_owner_index issue_package_type_complete
    mode_supports filter_mode_unsupported stamp_analysis_roots issue_less apply_suppressions
    issue_suppressed sort_issues sort_with insert_with add_member group_members update_at
    add_receivers count_place number_places disambiguate_members disambiguate_keys
    disambiguate_identities canonical_root derive_missing finalize_in_place refine_findings run_plan
    digits_of append_at text_lt check_metadata
run_program = tt

command_program : Unit {0}
unfolding run_program location_has_suppression suppression_directives collect_suppression_metadata
    baseline_program policy_program finalize_program system finalized resolved run dispatch
    run_check_command parse_check_options validate threshold_flag_conflict valid_fail_level
    check_policy execute_analysis analyse validate_suppressions validate_comments apply_severity
    override_severity filter_issues excluded write_baseline write_document read_baseline
    apply_legacy_baseline_options report_findings rank has_severity_at_least baseline_operation
    finish_update change_baseline render_baseline_diff stale load_document baseline_on
command_program = tt

-- The findings are warnings, and the file asks to fail on errors.
passes : run system (text "/work") (text "check" ∷ text "./..." ∷ []) [] ≡ (0, [])
unfolding command_program
passes = refl

-- The findings that are shown, by line and identity.
shown : Option AnalysisResult → List (ℕ × Text)
unfolding command_program
shown none = []
shown (some r) = map (λ i. (i.pos.line, i.identity)) r.issues

shown_findings :
    shown (execute_analysis system resolved)
    ≡ (5, text "large type;type=Store") ∷ (9, text "large type;type=Store;occurrence=2") ∷ []
unfolding command_program shown
shown_findings = refl

check_policy-zero_example :
    (r : AnalysisResult) × (execute_analysis system resolved ≡ some r)
    × (reaches resolved.options.fail_level
          (not_accepted system (baseline_of system resolved.options []) r.issues)
        ≡ false)
unfolding command_program
check_policy-zero_example = check_policy-zero system options resolved [] refl refl refl refl

abbrev init_options : CheckOptions
init_options = record options {
  baseline_path = text "baseline.json";
  baseline_reason = text "reviewed with the owners";
}

saved_disk : Map Document
unfolding command_program
saved_disk = (baseline_on system (text "init") init_options []).1

two_saved : map (λ d. length d.1.entries) saved_disk ≡ 2 ∷ []
unfolding command_program saved_disk
two_saved = refl

decodes_saved : DecodesSaved system
unfolding system
decodes_saved path d disk disk' newest valid sorted h =
    ground (arith, lookup-insert path path d disk, text_eq_refl path)

baseline_on-settles_example :
    (live : ℕ) × (baseline_on system (text "diff") init_options saved_disk
      ≡ (nothing_changed system init_options.format live, saved_disk))
unfolding command_program saved_disk
baseline_on-settles_example = baseline_on-settles system init_options [] decodes_saved refl

-- A check that is to fail on warnings.
abbrev strict : Text → CheckPolicy
strict baseline_path = record resolved {
  options = record options {
    fail = true;
    fail_level = severity_warning;
    baseline_path = baseline_path;
  };
}

check_policy-code_example : (check_policy system options (strict []) []).0 ≡ 1
unfolding command_program
check_policy-code_example = check_policy-code system options (strict []) [] refl refl

-- The baseline accepts both findings.
accepted_passes : (check_policy system options (strict (text "baseline.json")) saved_disk).0 ≡ 0
unfolding command_program saved_disk
accepted_passes = refl

reported : AnalysisResult
unfolding command_program
reported = elim (execute_analysis system resolved) [
  | some r ↦ r
  | none ↦ record { issues = []; stats = no_execution }
]

reported_all : execute_analysis system resolved ≡ some reported
unfolding command_program reported
reported_all = refl

execute_analysis-IsFinal_example :
    finalize_issues test_platform reported.issues (text "store") ≡ ok reported.issues
unfolding system
execute_analysis-IsFinal_example =
    execute_analysis-IsFinal system resolved (text "store") reported_all
