-- ===== src/Suppression/Locations.antt =====
-- internal/analyzer/run.go: which directives cover a finding.
use solidify.Base.{
  leb, ◌==◌, keep, any, text_eq, Map, slice, ℕ, ◌+◌, Bool, not, ◌&&◌, ◌||◌, List, [],
}
use solidify.Issues.Issue.{Issue, Position, issue_id}
use solidify.Suppression.Directives.{
  SourceFile, SuppressionDirective, DeclarationSpan, collect_suppression_metadata,
}

abbrev pub directive_matches_issue : SuppressionDirective → Issue → Bool
directive_matches_issue d i = text_eq d.rule (issue_id i) || text_eq d.rule i.rule

abbrev pub suppression_matches_line : ℕ → ℕ → Bool
suppression_matches_line directive_line finding_line =
    directive_line == finding_line || directive_line + 1 == finding_line

abbrev pub matches_span : ℕ → ℕ → DeclarationSpan → Bool
matches_span directive_line finding_line s =
    let directive_in_header = leb s.start directive_line && leb directive_line s.end in
    (directive_in_header || directive_line + 1 == s.start)
    && (leb s.start finding_line && leb finding_line s.end)

unfoldable pub matches_suppression_location : ℕ → ℕ → List DeclarationSpan → Bool
matches_suppression_location directive_line finding_line spans =
    suppression_matches_line directive_line finding_line
    || any (matches_span directive_line finding_line) spans

unfoldable pub location_has_suppression :
    Issue → Position → Map (List SuppressionDirective) → Map (List DeclarationSpan) → Bool
location_has_suppression i position by_file spans_by_file =
    any
      (λ d.
        not d.file_level
        && (directive_matches_issue d i
            && matches_suppression_location d.line position.line
                (slice position.filename spans_by_file)))
      (slice position.filename by_file)

unfoldable pub issue_suppressed :
    Issue → Map (List SuppressionDirective) → Map (List DeclarationSpan) → Bool
issue_suppressed i by_file spans_by_file =
    any (λ d. d.file_level && directive_matches_issue d i) (slice i.pos.filename by_file)
    || (location_has_suppression i i.pos by_file spans_by_file
        || any (λ related. location_has_suppression i related by_file spans_by_file) i.related)

unfoldable pub apply_suppressions : List Issue → List SourceFile → List Issue
apply_suppressions issues files =
    let (by_file, spans_by_file) = collect_suppression_metadata files [] [] in
    keep (λ i. not (issue_suppressed i by_file spans_by_file)) issues
