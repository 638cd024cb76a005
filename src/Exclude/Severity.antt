-- ===== src/Exclude/Severity.antt =====
-- internal/analyzer/control.go: ApplySeverity.
use solidify.Base.{Map, lookup, none, some, List, map}
use solidify.Ids.{Severity}
use solidify.Issues.Issue.{Issue, issue_id}

-- One round of the loop: an override for the check goes before one for its rule.
unfoldable pub override_severity : Map Severity → Issue → Issue
override_severity overrides i = elim (lookup (issue_id i) overrides) [
  | some severity ↦ record i { severity = severity }
  | none ↦ elim (lookup i.rule overrides) [
    | some severity ↦ record i { severity = severity }
    | none ↦ i
  ]
]

unfoldable pub apply_severity : List Issue → Map Severity → List Issue
apply_severity issues overrides = map (override_severity overrides) issues
