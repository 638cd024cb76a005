-- ===== src/Cli/Rules.antt =====
-- internal/cli/run.go and commands.go: lists in flags, severities, and which findings are left.
use solidify.Base.{
  leb, ◌==◌, if◌then◌else◌, length, keep, Text, text, text_eq, Map, insert, ◌>>=◌, Result, to_upper,
  trim_space, ℕ, Bool, true, false, not, ◌||◌, Option, none, some, List, [], ◌∷◌, map, ok, err,
}
use solidify.Ids.{
  Rule, CheckId, Severity, severity_note, severity_warning, severity_error, rule_srp, rule_ocp,
  rule_lsp, rule_isp, rule_dip,
}
use solidify.Paths.Clean.{split_on}
use solidify.Issues.Issue.{Issue}
use solidify.Exclude.Glob.{SegmentMatch, excluded}

unfoldable pub valid_fail_level : Text → Bool
valid_fail_level level =
    text_eq level severity_note || text_eq level severity_warning || text_eq level severity_error

-- `rank[severity]`, where a missing key reads as zero.
unfoldable pub rank : Severity → ℕ
rank severity =
    if text_eq severity severity_note
    then 1
    else if text_eq severity severity_warning
    then 2
    else if text_eq severity severity_error
    then 3
    else 0

unfoldable pub has_severity_at_least : List Issue → Severity → Bool
has_severity_at_least [] minimum = false
has_severity_at_least (i ∷ issues) minimum =
    let rest = has_severity_at_least issues minimum in
    if leb (rank minimum) (rank i.severity) then true else rest

unfoldable pub filter_issues : SegmentMatch → List Issue → List Text → List Issue
filter_issues g issues excludes = keep (λ i. not (excluded g i.pos.filename excludes)) issues

unfoldable pub code_to_rule : Text → Option Rule
code_to_rule code =
    if text_eq code (text "S")
    then some rule_srp
    else if text_eq code (text "O")
    then some rule_ocp
    else if text_eq code (text "L")
    then some rule_lsp
    else if text_eq code (text "I")
    then some rule_isp
    else if text_eq code (text "D")
    then some rule_dip
    else none

pub data RulesError : Type 0 where
  unknown_rule : Text → RulesError
  no_rules : RulesError

-- A part of the list, trimmed and in capital letters.
abbrev pub rule_code : Text → Text
rule_code part = trim_space (to_upper part)

-- The loop over the parts.
unfoldable pub collect_rules : List Text → Map Bool → Result RulesError (Map Bool)
collect_rules [] enabled = ok enabled
collect_rules (part ∷ parts) enabled =
    let code = rule_code part in
    let skipped = collect_rules parts enabled in
    let known : Result RulesError (Map Bool) = elim (code_to_rule code) [
      | none ↦ err (unknown_rule code)
      | some rule ↦ collect_rules parts (insert rule true enabled)
    ] in
    if length code == 0 then skipped else known

abbrev pub some_rules : Map Bool → Result RulesError (Map Bool)
some_rules [] = err no_rules
some_rules (r ∷ rules) = ok (r ∷ rules)

unfoldable pub parse_rules : Text → Result RulesError (Map Bool)
parse_rules spec = do enabled ← collect_rules (split_on 44 spec) []; some_rules enabled

unfoldable pub parse_check_ids : Text → List CheckId
parse_check_ids spec = keep (λ id. not (length id == 0)) (map trim_space (split_on 44 spec))
