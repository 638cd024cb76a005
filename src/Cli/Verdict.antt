-- ===== src/Cli/Verdict.antt =====
-- internal/cli/commands.go: what the exit code of a check says of the findings.
use solidify.Base.{
  leb, ◌==◌, if◌then◌else◌, Bool-cases, Option-cases, length, keep, any, Text, text, text_eq, ℕ,
  suc, ◌≡◌, refl, ◌⊎◌, inl, inr, Bool, true, false, not, ◌&&◌, ◌||◌, Option, none, some, List, [],
  ◌∷◌, arith,
}
use solidify.Issues.Issue.{Issue, fingerprint}
use solidify.Baseline.Document.{Entry, Document, read_at, is_expired}
use solidify.Baseline.Stale.{stale}
use solidify.Baseline.Gone.{is_gone, stale-is_gone}
use solidify.Cli.Options.{CheckOptions}
use solidify.Cli.Rules.{has_severity_at_least, rank}
use solidify.Ids.{Severity}
use solidify.Baseline.Reading.{accepts, filter-read_at}
use solidify.Cli.Policy.{CheckPolicy}
use solidify.Cli.Commands.{
  Outcome, print_fails, issues_output, System, load_document, stop, go_on, AnalysisResult,
  write_baseline, read_baseline, apply_legacy_baseline_options, report_findings, check_policy,
  execute_analysis,
}

-- Is some finding at or above the level?
abbrev pub reaches : Severity → List Issue → Bool
reaches minimum issues = any (λ i. leb (rank minimum) (rank i.severity)) issues

has_severity_at_least-any :
    (issues : List Issue) (minimum : Severity)
    → has_severity_at_least issues minimum ≡ reaches minimum issues
unfolding has_severity_at_least
has_severity_at_least-any [] minimum = refl
has_severity_at_least-any (i ∷ issues) minimum =
    ground (arith, has_severity_at_least-any issues minimum)

module _ {Disk : Type 0} (s : System Disk) where
  -- The findings that no unexpired entry of the document accepts, all of them where there is none.
  abbrev pub not_accepted : Option Document → List Issue → List Issue
  not_accepted none issues = issues
  not_accepted (some d) issues =
      keep (λ i. not (any (accepts s.today (fingerprint s.analyzer.platform i)) d.entries)) issues

  -- The document of the -baseline option.
  abbrev pub baseline_of : CheckOptions → Disk → Option Document
  baseline_of o disk =
      if length o.baseline_path == 0 then none else load_document s o.baseline_path disk

  expired_error : CheckOptions → Document → List Issue → Bool
  expired_error o d issues =
      not (length (read_at d s.today).expired == 0) && text_eq o.baseline_expired (text "error")

  stale_error : CheckOptions → Document → List Issue → Bool
  stale_error o d issues =
      not (length (stale s.analyzer.platform (read_at d s.today).accepted issues) == 0)
      && text_eq o.baseline_stale (text "error")

  -- Reading the baseline goes on with what it does not accept, or stops with another code than 0.
  read_baseline-cases :
      (o : CheckOptions) (issues : List Issue) (disk : Disk)
      → (read_baseline s o issues disk ≡ go_on (not_accepted (baseline_of o disk) issues))
        ⊎ ((c : ℕ) × (read_baseline s o issues disk ≡ stop (suc c)))
  unfolding read_baseline expired_error stale_error
  read_baseline-cases o issues disk = elim (Bool-cases (length o.baseline_path == 0)) [
    | inl e ↦ inl (rw (e) refl)
    | inr e ↦ elim (Option-cases (load_document s o.baseline_path disk)) [
      | inl n ↦ inr (1, ground (arith, e, n))
      | inr (d, n) ↦ elim (Bool-cases (expired_error o d issues || stale_error o d issues)) [
        | inl x ↦ inr (0, ground (arith, e, n, x))
        | inr x ↦ inl (ground (arith, e, n, x, filter-read_at s.analyzer.platform d s.today issues))
      ]
    ]
  ]

  check_policy-report :
      (o : CheckOptions) (policy : CheckPolicy) (disk : Disk) (r : AnalysisResult)
      → o.print_config ≡ false
      → policy.options.write_baseline_path ≡ []
      → execute_analysis s policy ≡ some r
      → (check_policy s o policy disk).0
        ≡ report_findings s policy o.format (read_baseline s policy.options r.issues disk)
  unfolding check_policy apply_legacy_baseline_options write_baseline
  check_policy-report o policy disk r p w e = rw (e, p, w) refl

  check_policy-none :
      (o : CheckOptions) (policy : CheckPolicy) (disk : Disk)
      → o.print_config ≡ false
      → execute_analysis s policy ≡ none
      → (check_policy s o policy disk).0 ≡ 2
  unfolding check_policy
  check_policy-none o policy disk p e = rw (e, p) refl

  report_findings-zero :
      (policy : CheckPolicy) (format : Text) (issues : List Issue)
      → policy.options.fail ≡ true
      → report_findings s policy format (go_on issues) ≡ 0
      → reaches policy.options.fail_level issues ≡ false
  unfolding report_findings
  report_findings-zero policy format issues f h =
      ground (arith, f, has_severity_at_least-any issues policy.options.fail_level)

  -- Where a check that is to fail on findings, prints no configuration and writes no baseline exits with 0,
  -- its analysis succeeded and every finding at the fail level or above is accepted by an
  -- unexpired entry of its baseline; without a baseline there is no such finding.
  pub check_policy-zero :
      (o : CheckOptions) (policy : CheckPolicy) (disk : Disk)
      → o.print_config ≡ false
      → policy.options.fail ≡ true
      → policy.options.write_baseline_path ≡ []
      → (check_policy s o policy disk).0 ≡ 0
      → (r : AnalysisResult) × (execute_analysis s policy ≡ some r)
        × (reaches policy.options.fail_level
              (not_accepted (baseline_of policy.options disk) r.issues)
            ≡ false)
  unfolding report_findings
  check_policy-zero o policy disk p f w h = elim (Option-cases (execute_analysis s policy)) [
    | inl e ↦ absurd (ground (arith, check_policy-none o policy disk p e))
    | inr (r, e) ↦
        let reported = check_policy-report o policy disk r p w e in
        (
          r,
          e,
          elim (read_baseline-cases policy.options r.issues disk) [
            | inl g ↦ report_findings-zero policy o.format _ f (ground (arith, reported, g, h))
            | inr (c, g) ↦ absurd (ground (arith, reported, g))
          ],
        )
  ]

  -- What the baseline options come to, given the baseline that was read, or none where it could not be.
  judged : CheckOptions → List Issue → Option Document → Outcome
  judged o issues none = stop 2
  judged o issues (some d) =
      if expired_error o d issues || stale_error o d issues
      then stop 1
      else go_on (not_accepted (some d) issues)

  read_baseline-judged :
      (o : CheckOptions) (issues : List Issue) (disk : Disk)
      → read_baseline s o issues disk ≡ (
          if length o.baseline_path == 0
          then go_on issues
          else judged o issues (load_document s o.baseline_path disk))
  unfolding read_baseline judged expired_error stale_error
  read_baseline-judged o issues disk = elim (Option-cases (load_document s o.baseline_path disk)) [
    | inl n ↦ ground (arith, n)
    | inr (d, n) ↦ ground (arith, n, filter-read_at s.analyzer.platform d s.today issues)
  ]

  -- Does the document have an entry that expired, or an unexpired one whose finding is gone, where
  -- the options make an error of that?
  abbrev pub is_outdated : CheckOptions → List Issue → Document → Bool
  is_outdated o issues d =
      (any (is_expired s.today) d.entries && text_eq o.baseline_expired (text "error"))
      || (any (is_gone s.analyzer.platform s.today issues) d.entries
          && text_eq o.baseline_stale (text "error"))

  -- The code for the findings that are left: they are shown, and some may be severe.
  abbrev pub shown_code : CheckPolicy → Text → List Issue → ℕ
  shown_code policy format issues =
      if print_fails (s.print (issues_output issues format policy.config.profile))
      then 2
      else if policy.options.fail && reaches policy.options.fail_level issues
      then 1
      else 0

  -- The code with a baseline, or with one that cannot be read.
  abbrev pub baseline_code : CheckPolicy → Text → List Issue → Option Document → ℕ
  baseline_code policy format issues none = 2
  baseline_code policy format issues (some d) =
      if is_outdated policy.options issues d
      then 1
      else shown_code policy format (not_accepted (some d) issues)

  keep-any :
      (today : Text) (entries : List Entry)
      → not (length (keep (is_expired today) entries) == 0) ≡ any (is_expired today) entries
  keep-any today [] = refl
  keep-any today (e ∷ entries) = ground (arith, keep-any today entries)

  -- A check that prints no configuration and writes no baseline exits with 2 if the analysis or
  -- the reading of the baseline fails, and with 1 if expired or stale entries are to be errors and there are
  -- some. Otherwise the findings that no unexpired entry accepts are printed; the code is 2 if that
  -- fails, 1 if the check is to fail on findings and one of them is at the fail level or above, and
  -- else 0.
  pub check_policy-code :
      (o : CheckOptions) (policy : CheckPolicy) (disk : Disk)
      → o.print_config ≡ false
      → policy.options.write_baseline_path ≡ []
      → (check_policy s o policy disk).0 ≡ elim (execute_analysis s policy) [
        | none ↦ 2
        | some r ↦
            if length policy.options.baseline_path == 0
            then shown_code policy o.format r.issues
            else baseline_code policy o.format r.issues
                (load_document s policy.options.baseline_path disk)
      ]
  unfolding report_findings judged expired_error stale_error read_at
  check_policy-code o policy disk p w = elim (Option-cases (execute_analysis s policy)) [
    | inl e ↦ ground (arith, e, check_policy-none o policy disk p e)
    | inr (r, e) ↦
        let reported = check_policy-report o policy disk r p w e in
        let read = read_baseline-judged policy.options r.issues disk in
        elim (Option-cases (load_document s policy.options.baseline_path disk)) [
          | inl n ↦ ground (
            arith,
            e,
            reported,
            read,
            n,
            has_severity_at_least-any r.issues policy.options.fail_level,
          )
          | inr (d, n) ↦ ground (
            arith,
            e,
            reported,
            read,
            n,
            keep-any s.today d.entries,
            stale-is_gone s.analyzer.platform d s.today r.issues,
            has_severity_at_least-any r.issues policy.options.fail_level,
            has_severity_at_least-any (not_accepted (some d) r.issues) policy.options.fail_level,
          )
        ]
  ]
