-- ===== src/Cli/Reported.antt =====
-- internal/cli/commands.go: executeAnalysis finalizes its findings, and what comes after keeps that.
use solidify.Base.{
  Option-cases, keep, all, Text, text, Map, lookup, listed, distinct, is_ok, is_ok-ok, Result-cases,
  ◌≡◌, refl, sym, ap, ◌∙◌, subst, inl, inr, Bool, true, false, not, some, List, [], ◌∷◌, map, arith,
  ok,
}
use solidify.Issues.Issue.{Issue, Platform, issue_identity_key, issue_id, issue_path}
use solidify.Issues.Finalize.{is_nameless, finalize_issues}
use solidify.Issues.Identity.{
  completed, completed_key, is_named, finalize_issues-is_ok, finalize_issues-stable,
  completed-named,
}
use solidify.Exclude.Glob.{SegmentMatch}
use solidify.Exclude.Severity.{override_severity, apply_severity}
use solidify.Ids.{Severity}
use solidify.Run.Jobs.{Package}
use solidify.Run.Whole.{run_plan, files_of}
use solidify.Suppression.Directives.{validate_suppressions}
use solidify.Cli.Rules.{filter_issues}
use solidify.Cli.Policy.{CheckPolicy}
use solidify.Cli.Commands.{System, AnalysisResult, analyse, execute_analysis}

module _ {ℓ} {A : Type ℓ} (key : A → Text) (f : A → Bool) where
  unlisted-keep :
      (k : Text) (l : List A) → listed k (map key l) ≡ false → listed k (map key (keep f l)) ≡ false
  unfolding listed
  unlisted-keep k [] h = h
  unlisted-keep k (a ∷ l) h = ground (arith, unlisted-keep k l)

  distinct-keep : (l : List A) → distinct (map key l) ≡ true → distinct (map key (keep f l)) ≡ true
  unfolding distinct
  distinct-keep [] h = h
  distinct-keep (a ∷ l) h = ground (arith, distinct-keep l, unlisted-keep (key a) l)

all-keep {ℓ} : {A : Type ℓ} (f g : A → Bool) (l : List A) → all f l ≡ true → all f (keep g l) ≡ true
all-keep f g [] h = h
all-keep f g (a ∷ l) h = ground (arith, all-keep f g l)

abbrev named : Issue → Bool
named i = not (is_nameless i)

-- Each finding has a subject and an identity, and no two share a key.
abbrev IsNamedApart : List Issue → Type 0
IsNamedApart issues = (all named issues ≡ true) × (distinct (map issue_identity_key issues) ≡ true)

all-completed :
    (p : Platform) (path : Text) (issues : List Issue)
    → all named (map (completed p path) issues) ≡ all (is_named p path) issues
all-completed p path [] = refl
all-completed p path (i ∷ issues) = ground (arith, all-completed p path issues)

map-completed :
    (p : Platform) (path : Text) (issues : List Issue)
    → map issue_identity_key (map (completed p path) issues) ≡ map (completed_key p path) issues
map-completed p path [] = refl
map-completed p path (i ∷ issues) = ground (arith, map-completed p path issues)

finalize_issues-IsNamedApart :
    (p : Platform) (issues : List Issue) (path : Text) {out : List Issue}
    → finalize_issues p issues path ≡ ok out
    → IsNamedApart out
finalize_issues-IsNamedApart p issues path {out} h =
    let (same, _) = finalize_issues-stable p issues path path h in
    let known = finalize_issues-is_ok p path issues in
    ground (arith, h, same, known, all-completed p path issues, map-completed p path issues)

-- What is named is complete.
all_named-completed :
    (p : Platform) (path : Text) (issues : List Issue)
    → all named issues ≡ true
    → map (completed p path) issues ≡ issues
all_named-completed p path [] h = refl
all_named-completed p path (i ∷ issues) h =
    ground (arith, h, completed-named p path i, all_named-completed p path issues)

named_apart-IsFinal :
    (p : Platform) (issues : List Issue) (path : Text)
    → IsNamedApart issues
    → finalize_issues p issues path ≡ ok issues
named_apart-IsFinal p issues path (all_named, apart) =
    let same = all_named-completed p path issues all_named in
    let known = finalize_issues-is_ok p path issues in
    let succeeds : is_ok (finalize_issues p issues path) ≡ true = ground (
      arith,
      known,
      all-completed p path issues,
      map-completed p path issues,
      same,
      all_named,
      apart,
    ) in
    let (out, done) = is_ok-ok (finalize_issues p issues path) succeeds in
    done ∙ ap ok ((finalize_issues-stable p issues path path done).0 ∙ same)

override_severity-key :
    (overrides : Map Severity) (i : Issue)
    → (issue_identity_key (override_severity overrides i) ≡ issue_identity_key i)
      × (named (override_severity overrides i) ≡ named i)
unfolding override_severity issue_identity_key issue_id issue_path
override_severity-key overrides i = elim (Option-cases (lookup (issue_id i) overrides)) [
  | inl e ↦ ground (arith, e, Option-cases (lookup i.rule overrides))
  | inr (severity, e) ↦ ground (arith, e)
]

apply_severity-IsNamedApart :
    (overrides : Map Severity) (issues : List Issue)
    → (map issue_identity_key (apply_severity issues overrides) ≡ map issue_identity_key issues)
      × (all named (apply_severity issues overrides) ≡ all named issues)
unfolding apply_severity
apply_severity-IsNamedApart overrides [] = (refl, refl)
apply_severity-IsNamedApart overrides (i ∷ issues) =
    ground (arith, override_severity-key overrides i, apply_severity-IsNamedApart overrides issues)

excluded_kept :
    (g : SegmentMatch) (issues : List Issue) (excludes : List Text)
    → IsNamedApart issues
    → IsNamedApart (filter_issues g issues excludes)
unfolding filter_issues
excluded_kept g issues excludes (all_named, apart) =
    (all-keep named _ issues all_named, distinct-keep issue_identity_key _ issues apart)

module _ {Disk : Type 0} (s : System Disk) where
  analyse-IsNamedApart :
      (policy : CheckPolicy) (packages : List Package) {r : AnalysisResult}
      → analyse s policy packages ≡ some r
      → IsNamedApart r.issues
  unfolding analyse
  analyse-IsNamedApart policy packages {r} h =
      let found = (run_plan s.analyzer packages policy.config policy.plan).0 in
      elim (Result-cases (finalize_issues s.analyzer.platform found (text "workspace"))) [
        | inl (issues, e) ↦
            let graded = apply_severity issues policy.file_config.severities in
            let reported : r.issues
                ≡ filter_issues s.sources.match_segment graded policy.file_config.excludes =
              ground (arith, h, e) in
            let (keys, names) = apply_severity-IsNamedApart policy.file_config.severities issues in
            let (all_named, apart) =
              finalize_issues-IsNamedApart s.analyzer.platform found (text "workspace") e in
            subst IsNamedApart (sym reported) (
              excluded_kept s.sources.match_segment graded policy.file_config.excludes
                (names ∙ all_named, ap distinct keys ∙ apart))
        | inr (_, e) ↦ absurd (ground (arith, h, e))
      ]

  -- What a successful analysis reports is final: finalizing it, for any package, succeeds and changes
  -- nothing.
  pub execute_analysis-IsFinal :
      (policy : CheckPolicy) (path : Text) {r : AnalysisResult}
      → execute_analysis s policy ≡ some r
      → finalize_issues s.analyzer.platform r.issues path ≡ ok r.issues
  unfolding execute_analysis
  execute_analysis-IsFinal policy path {r} h = elim (Option-cases (s.load_workspace policy)) [
    | inl e ↦ absurd (ground (arith, h, e))
    | inr (packages, e) ↦ named_apart-IsFinal s.analyzer.platform r.issues path (
        analyse-IsNamedApart policy packages {r = r}
          (ground (arith, h, e, Result-cases (validate_suppressions (files_of packages)))))
  ]
