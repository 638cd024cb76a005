-- ===== src/Cli/Commands.antt =====
-- internal/cli/commands.go and policy.go: the commands, as functions from the arguments and a disk to
-- the exit code and the disk. What is printed on the way is left out, but for whether it fails.
use solidify.Base.{
  ◌==◌, if◌then◌else◌, length, Text, text, text_eq, Result, ℕ, Bool, true, false, not, ◌&&◌, Option,
  none, some, List, [], ok, err,
}
use solidify.Ids.{CheckId, Profile}
use solidify.Issues.Issue.{Issue}
use solidify.Issues.Finalize.{finalize_issues}
use solidify.Suppression.Directives.{validate_suppressions}
use solidify.Exclude.Severity.{apply_severity}
use solidify.Run.Jobs.{Package}
use solidify.Run.Coverage.{ExecutionStats}
use solidify.Run.Whole.{Analyzer, files_of, run_plan}
use solidify.Baseline.Stale.{stale}
use solidify.Baseline.Document.{
  Decoded, load, Document, Annotation, version, validate_document, sort_entries, read_at, filter,
}
use solidify.Baseline.Update.{update}
use solidify.Cli.Options.{CheckOptions, OptionError, help, parse_check_options}
use solidify.Cli.Rules.{has_severity_at_least, filter_issues}
use solidify.Cli.Policy.{Sources, CheckPolicy, resolve_check_policy}

-- What printing comes to.
pub data Printed : Type 0 where
  printed broken_pipe failed : Printed

-- What is printed, as far as it is modelled.
pub data Output : Type 0 where
  config_output : CheckPolicy → Output
  issues_output : List Issue → Text → Profile → Output
  stats_output : ExecutionStats → Text → Output
  diff_output : List Text → List Text → ℕ → Output
  checks_output : List CheckId → Output
  init_yaml schema : Output

-- What the commands take from elsewhere: Go's flag package, for the options of a check and for the
-- format of `checks` with the number of arguments left over; the loading of packages, none where it
-- fails; what the run of a plan takes; the terminal; and the disk that the encoded baselines are on, which
-- reading decodes and saving encodes.
pub record System (Disk : Type 0) : Type 0 where
  pub parse_flags : CheckOptions → List Text → Result OptionError CheckOptions
  pub parse_format : List Text → Option (Text × ℕ)
  pub sources : Sources
  pub analyzer : Analyzer
  pub tool_version : Text
  pub today : Text
  pub load_workspace : CheckPolicy → Option (List Package)
  pub print : Output → Printed
  pub decode_document : Text → Disk → Option Decoded
  pub save : Text → Document → Disk → Option Disk

-- `err != nil && !isBrokenPipe(err)`
abbrev pub print_fails : Printed → Bool
print_fails failed = true
print_fails _ = false

-- The findings and the statistics.
pub record AnalysisResult : Type 0 where
  pub issues : List Issue
  pub stats : ExecutionStats

-- A code to return with, or the findings to go on with.
pub data Outcome : Type 0 where
  stop : ℕ → Outcome
  go_on : List Issue → Outcome

abbrev pub no_document : Document
no_document = record { version = version; entries = [] }

abbrev pub annotation_of : CheckOptions → Annotation
annotation_of o = record {
  reason = o.baseline_reason;
  owner = o.baseline_owner;
  expires = o.baseline_expires;
}

module _ {Disk : Type 0} (s : System Disk) where
  abbrev pub print_code : Output → ℕ
  print_code output = if print_fails (s.print output) then 2 else 0

  -- baseline.Load
  unfoldable pub load_document : Text → Disk → Option Document
  load_document path disk = elim (s.decode_document path disk) [
    | none ↦ none
    | some decoded ↦ elim (load decoded) [ err _ ↦ none | ok d ↦ some d ]
  ]

  -- baseline.WriteDocument
  unfoldable pub write_document : Text → Document → Disk → Option Disk
  write_document path d disk =
      let written : Document = record { version = version; entries = sort_entries d.entries } in
      elim (validate_document written) [ ok _ ↦ s.save path written disk | err _ ↦ none ]

  -- Past the validation of suppressions.
  unfoldable pub analyse : CheckPolicy → List Package → Option AnalysisResult
  analyse policy packages =
      let (found, stats) = run_plan s.analyzer packages policy.config policy.plan in
      elim (finalize_issues s.analyzer.platform found (text "workspace")) [
        | err _ ↦ none
        | ok issues ↦ some (record {
          issues =
              filter_issues s.sources.match_segment
                (apply_severity issues policy.file_config.severities) policy.file_config.excludes;
          stats = stats;
        })
      ]

  -- None where there is an error.
  unfoldable pub execute_analysis : CheckPolicy → Option AnalysisResult
  execute_analysis policy = elim (s.load_workspace policy) [
    | none ↦ none
    | some packages ↦ elim (validate_suppressions (files_of packages)) [
      | err _ ↦ none
      | ok _ ↦ analyse policy packages
    ]
  ]

  -- The -write-baseline option: the findings, which Update finalizes in place, and the disk.
  unfoldable pub write_baseline : CheckOptions → List Issue → Disk → Option (List Issue × Disk)
  write_baseline o issues disk =
      let written : Option (List Issue × Disk) =
        elim (update s.analyzer.platform no_document issues (annotation_of o) true) [
          | err _ ↦ none
          | ok u ↦ elim (write_document o.write_baseline_path u.document disk) [
            | none ↦ none
            | some disk' ↦ some (u.findings, disk')
          ]
        ] in
      if length o.write_baseline_path == 0 then some (issues, disk) else written

  -- The -baseline option.
  unfoldable pub read_baseline : CheckOptions → List Issue → Disk → Outcome
  read_baseline o issues disk =
      let read : Outcome = elim (load_document o.baseline_path disk) [
        | none ↦ stop 2
        | some d ↦
            let r = read_at d s.today in
            if not (length r.expired == 0) && text_eq o.baseline_expired (text "error")
            then stop 1
            else if not (length (stale s.analyzer.platform r.accepted issues) == 0)
                && text_eq o.baseline_stale (text "error")
            then stop 1
            else go_on (filter s.analyzer.platform issues r.accepted)
      ] in
      if length o.baseline_path == 0 then go_on issues else read

  unfoldable pub apply_legacy_baseline_options : CheckOptions → List Issue → Disk → Outcome × Disk
  apply_legacy_baseline_options o issues disk = elim (write_baseline o issues disk) [
    | none ↦ (stop 2, disk)
    | some (issues', disk') ↦ (read_baseline o issues' disk', disk')
  ]

  -- The end of runCheckCommand.
  unfoldable pub report_findings : CheckPolicy → Text → Outcome → ℕ
  report_findings policy format (stop code) = code
  report_findings policy format (go_on issues) =
      if print_fails (s.print (issues_output issues format policy.config.profile))
      then 2
      else if policy.options.fail && has_severity_at_least issues policy.options.fail_level
      then 1
      else 0

  -- runCheckCommand past the policy.
  unfoldable pub check_policy : CheckOptions → CheckPolicy → Disk → ℕ × Disk
  check_policy o policy disk =
      let checked : ℕ × Disk = elim (execute_analysis policy) [
        | none ↦ (2, disk)
        | some result ↦
            let (outcome, disk') =
              apply_legacy_baseline_options policy.options result.issues disk in
            (report_findings policy o.format outcome, disk')
      ] in
      if o.print_config then (print_code (config_output policy), disk) else checked

  abbrev pub option_code : OptionError → ℕ
  option_code help = 0
  option_code _ = 2

  unfoldable pub run_check_command : List Text → Disk → ℕ × Disk
  run_check_command args disk = elim (parse_check_options s.parse_flags args) [
    | err e ↦ (option_code e, disk)
    | ok o ↦
        let checked : ℕ × Disk = elim (resolve_check_policy s.sources o s.tool_version) [
          | err _ ↦ (2, disk)
          | ok policy ↦ check_policy o policy disk
        ] in
        if o.show_version then (0, disk) else checked
  ]

  unfoldable pub run_stats_command : List Text → ℕ
  run_stats_command args = elim (parse_check_options s.parse_flags args) [
    | err e ↦ option_code e
    | ok o ↦
        let reported : ℕ = elim (resolve_check_policy s.sources o s.tool_version) [
          | err _ ↦ 2
          | ok policy ↦ elim (execute_analysis policy) [
            | none ↦ 2
            | some result ↦ print_code (stats_output result.stats o.format)
          ]
        ] in
        if text_eq o.format (text "sarif") then 2 else reported
  ]
