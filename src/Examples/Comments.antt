-- ===== src/Examples/Comments.antt =====
-- internal/analyzer/run.go: suppression comments in one file.
use solidify.Base.{
  keep, any, text, text_eq, lookup, insert, append_at, trim_left, trim_right, trim_space,
  has_prefix, without_prefix, trim_prefix, fields, ◌≡◌, refl, true, not, none, some, [], ◌∷◌,
}
use solidify.Issues.Issue.{issue_id}
use solidify.Registry.Index.{registered_check_ids, is_known_check_id, build_known_check_ids}
use solidify.Suppression.Directives.{
  SourceFile, general, parse_words, parse_suppression_comment, type_declaration_spans,
  declaration_header_spans, suppression_directives, collect_suppression_metadata, validate_comments,
  validate_suppressions, function_declaration_span,
}
use solidify.Suppression.Locations.{
  matches_suppression_location, location_has_suppression, issue_suppressed, apply_suppressions,
}
use solidify.Suppression.Covers.{comments_of, covers, apply_suppressions-covers}
use solidify.Suppression.Validation.{
  is_malformed, reported, first_comment, validate_suppressions-first,
}
use solidify.Examples.Findings.{finding, two_findings}
use solidify.Examples.Selection.{selection_program}

suppression_program : Unit {0}
unfolding selection_program registered_check_ids is_known_check_id build_known_check_ids parse_words
    parse_suppression_comment type_declaration_spans declaration_header_spans
    function_declaration_span suppression_directives collect_suppression_metadata validate_comments
    validate_suppressions matches_suppression_location location_has_suppression issue_suppressed
    apply_suppressions issue_id has_prefix trim_prefix without_prefix trim_space trim_left
    trim_right fields append_at lookup insert text_eq
suppression_program = tt

-- A type on lines 4 to 9 with a directive above it.
abbrev store_file : SourceFile
store_file = record {
  filename = text "/work/store.go";
  declarations = general none (some (record { line = 4; end_line = 9 }) ∷ []) ∷ [];
  comments =
      (record {
        text = text "//solidlint:ignore SOLID-I/fat-interface the protocol is fixed";
        filename = text "/work/store.go";
        line = 3;
      })
      ∷ [];
}

one_left : apply_suppressions two_findings (store_file ∷ []) ≡ finding (text "/work/a.go") ∷ []
unfolding suppression_program
one_left = refl

no_reason :
    is_malformed (record { text = text "//solidify:ignore SOLID-I"; filename = []; line = 1 })
    ≡ true
unfolding suppression_program
no_reason = refl

apply_suppressions-covers_example :
    apply_suppressions two_findings (store_file ∷ [])
    ≡ keep
        (λ i. not (any (covers (store_file ∷ []) i) (comments_of (store_file ∷ []))))
        two_findings
apply_suppressions-covers_example = apply_suppressions-covers two_findings (store_file ∷ [])

validate_suppressions-first_example :
    validate_suppressions (store_file ∷ [])
    ≡ reported (first_comment is_malformed (comments_of (store_file ∷ [])))
validate_suppressions-first_example = validate_suppressions-first (store_file ∷ [])
