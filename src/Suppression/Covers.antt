-- ===== src/Suppression/Covers.antt =====
-- internal/analyzer/run.go: which findings the directives take away.
use solidify.Base.{
  if◌then◌else◌, ||-false, keep, any, keep-eq, any-append, any-eq, any-or, any-and, any-swap, Text,
  text_eq, Map, lookup, slice, append_at, slice-append_at, ◌≡◌, sym, ap, ◌∙◌, Bool, false, not,
  ◌&&◌, ◌||◌, List, [], ◌∷◌, ◌++◌, arith,
}
use solidify.Issues.Issue.{Issue, Position}
use solidify.Suppression.Directives.{
  Comment, SourceFile, SuppressionDirective, unrelated, malformed, directive,
  parse_suppression_comment, DeclarationSpan, declaration_header_spans, suppression_directives,
  collect_suppression_metadata,
}
use solidify.Suppression.Locations.{
  directive_matches_issue, suppression_matches_line, matches_span, matches_suppression_location,
  location_has_suppression, issue_suppressed, apply_suppressions,
}

abbrev pub comments_of : List SourceFile → List Comment
comments_of [] = []
comments_of (f ∷ files) = f.comments ++ comments_of files

-- Is the comment a directive with `P`?
abbrev pub is_directive : (SuppressionDirective → Bool) → Comment → Bool
is_directive P c = elim (parse_suppression_comment c.text) [
  | directive d ↦ P (record d { line = c.line })
  | _ ↦ false
]

module _ (P : SuppressionDirective → Bool) (k : Text) where
  suppression_directives-any :
      (comments : List Comment) (m : Map (List SuppressionDirective))
      → any P (slice k (suppression_directives comments m))
        ≡ (any P (slice k m) || any (λ c. text_eq c.filename k && is_directive P c) comments)
  unfolding suppression_directives
  suppression_directives-any [] m = sym (||-false _)
  suppression_directives-any (c ∷ comments) m =
      elim (parse_suppression_comment c.text)
        as (λ r.
          any P (
            slice k (
              suppression_directives comments (elim r [
                | directive d ↦ append_at c.filename ((record d { line = c.line }) ∷ []) m
                | _ ↦ m
              ])))
          ≡ (any P (slice k m)
              || (text_eq c.filename k
                    && elim r [ directive d ↦ P (record d { line = c.line }) | _ ↦ false ]
                  || any (λ c. text_eq c.filename k && is_directive P c) comments))) [
                    | directive d ↦
                        let added : List SuppressionDirective = (record d { line = c.line }) ∷ [] in
                        ground (
                          arith,
                          suppression_directives-any comments (append_at c.filename added m),
                          slice-append_at c.filename k added m,
                          any-append P (slice k m) added,
                        )
                    | unrelated ↦ ground (arith, suppression_directives-any comments m)
                    | malformed ↦ ground (arith, suppression_directives-any comments m)
                  ]

  collect-directives :
      (files : List SourceFile) (m : Map (List SuppressionDirective))
      (n : Map (List DeclarationSpan))
      → any P (slice k (collect_suppression_metadata files m n).0) ≡ (
          any P (slice k m)
          || any (λ c. text_eq c.filename k && is_directive P c) (comments_of files))
  unfolding collect_suppression_metadata
  collect-directives [] m n = sym (||-false _)
  collect-directives (f ∷ files) m n = ground (
    arith,
    collect-directives files (suppression_directives f.comments m)
        (append_at f.filename (declaration_header_spans f.declarations) n),
    suppression_directives-any f.comments m,
    any-append (λ c. text_eq c.filename k && is_directive P c) f.comments (comments_of files),
  )

module _ (P : DeclarationSpan → Bool) (k : Text) where
  collect-spans :
      (files : List SourceFile) (m : Map (List SuppressionDirective))
      (n : Map (List DeclarationSpan))
      → any P (slice k (collect_suppression_metadata files m n).1) ≡ (
          any P (slice k n)
          || any
              (λ f. text_eq f.filename k && any P (declaration_header_spans f.declarations))
              files)
  unfolding collect_suppression_metadata
  collect-spans [] m n = sym (||-false _)
  collect-spans (f ∷ files) m n = ground (
    arith,
    collect-spans files (suppression_directives f.comments m)
        (append_at f.filename (declaration_header_spans f.declarations) n),
    slice-append_at f.filename k (declaration_header_spans f.declarations) n,
    any-append P (slice k n) (declaration_header_spans f.declarations),
  )

-- Is the place in the comment's file, and on its line, on the next line, or in a declaration header
-- that the comment stands in or right above?
abbrev pub reaches : List SourceFile → Comment → Position → Bool
reaches files c position =
    text_eq c.filename position.filename
    && (suppression_matches_line c.line position.line
        || any
            (λ f.
              text_eq f.filename position.filename
              && any (matches_span c.line position.line) (declaration_header_spans f.declarations))
            files)

-- A directive for the finding's check or rule that is for its whole file, or reaches it.
abbrev pub covers : List SourceFile → Issue → Comment → Bool
covers files i c =
    is_directive
      (λ d.
        directive_matches_issue d i
        && (if d.file_level
            then text_eq c.filename i.pos.filename
            else any (reaches files c) (i.pos ∷ i.related)))
      c

module _ (files : List SourceFile) (i : Issue) where
  abbrev by_file : Map (List SuppressionDirective)
  by_file = (collect_suppression_metadata files [] []).0

  abbrev spans_by_file : Map (List DeclarationSpan)
  spans_by_file = (collect_suppression_metadata files [] []).1

  abbrev on_line : Position → Comment → Bool
  on_line position c =
      is_directive (λ d. not d.file_level && directive_matches_issue d i) c
      && reaches files c position

  matches_suppression_location-reaches :
      (c : Comment) (position : Position)
      → (text_eq c.filename position.filename
          && matches_suppression_location c.line position.line
              (slice position.filename spans_by_file))
        ≡ reaches files c position
  unfolding matches_suppression_location lookup
  matches_suppression_location-reaches c position =
      ground
        (arith, collect-spans (matches_span c.line position.line) position.filename files [] [])

  on_line_lem :
      (position : Position) (c : Comment)
      → (text_eq c.filename position.filename
          && is_directive
              (λ d.
                not d.file_level
                && (directive_matches_issue d i
                    && matches_suppression_location d.line position.line
                        (slice position.filename spans_by_file)))
              c)
        ≡ on_line position c
  on_line_lem position c = ground (arith, matches_suppression_location-reaches c position)

  location_has_suppression-on_line :
      (position : Position)
      → location_has_suppression i position by_file spans_by_file
        ≡ any (on_line position) (comments_of files)
  unfolding location_has_suppression lookup
  location_has_suppression-on_line position =
      collect-directives _ position.filename files [] []
      ∙ any-eq _ _ (comments_of files) (on_line_lem position)

  on_file : Comment → Bool
  on_file c =
      text_eq c.filename i.pos.filename
      && is_directive (λ d. d.file_level && directive_matches_issue d i) c

  covers_lem :
      (c : Comment)
      → (on_file c || (on_line i.pos c || any (λ r. on_line r c) i.related)) ≡ covers files i c
  unfolding on_file
  covers_lem c = ground (
    arith,
    any-and (is_directive (λ d. not d.file_level && directive_matches_issue d i) c)
        (reaches files c) i.related,
  )

  pub issue_suppressed-covers :
      issue_suppressed i by_file spans_by_file ≡ any (covers files i) (comments_of files)
  unfolding issue_suppressed on_file lookup
  issue_suppressed-covers =
      let comments : List Comment = comments_of files in
      ground (
        arith,
        collect-directives (λ d. d.file_level && directive_matches_issue d i) i.pos.filename files
            [] [],
        location_has_suppression-on_line i.pos,
        any-eq _ _ i.related location_has_suppression-on_line,
        any-swap on_line i.related comments,
        any-or (on_line i.pos) (λ c. any (λ r. on_line r c) i.related) comments,
        any-or on_file (λ c. on_line i.pos c || any (λ r. on_line r c) i.related) comments,
        any-eq _ _ comments covers_lem,
      )

-- Exactly those findings are left that no comment of the files covers: no directive for their check
-- or rule that is for the whole file of the finding, or for which its own line, the next line, or a
-- declaration header that it stands in or right above holds the finding's place or a related one.
pub apply_suppressions-covers :
    (issues : List Issue) (files : List SourceFile)
    → apply_suppressions issues files
      ≡ keep (λ i. not (any (covers files i) (comments_of files))) issues
unfolding apply_suppressions
apply_suppressions-covers issues files =
    keep-eq _ _ issues (λ i. ap not (issue_suppressed-covers files i))
