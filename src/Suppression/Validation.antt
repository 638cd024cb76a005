-- ===== src/Suppression/Validation.antt =====
-- internal/analyzer/run.go: which comment ValidateSuppressions reports.
use solidify.Base.{
  if◌then◌else◌, Bool-cases, Option-cases, is_some, Text, text, text_eq_comm, lookup, listed,
  Result, trim_space, has_prefix, trim_prefix, fields, ◌≡◌, refl, inl, inr, Bool, true, false, not,
  ◌&&◌, ◌||◌, Option, none, some, List, [], ◌∷◌, ◌++◌, arith, ok, err,
}
use solidify.Registry.Index.{is_known_check_id}
use solidify.Suppression.Directives.{
  Comment, SourceFile, Parsed, malformed, suppression_verbs, parse_words, parse_suppression_comment,
  validate_comments, validate_suppressions,
}
use solidify.Suppression.Covers.{comments_of}

-- The body of a comment.
abbrev pub body : Comment → Text
body c = trim_space (trim_prefix c.text (text "//"))

abbrev pub verbs : List Text
verbs =
    text "solidify:ignore"
    ∷ text "solidify:ignore-file"
    ∷ text "solidlint:ignore"
    ∷ text "solidlint:ignore-file"
    ∷ []

-- A verb, a check or family that is known, and a justification of one word or more.
abbrev pub is_justified : List Text → Bool
is_justified (verb ∷ id ∷ word ∷ rest) = listed verb verbs && is_known_check_id id
is_justified _ = false

-- A comment that begins like a directive and is none.
abbrev pub is_malformed : Comment → Bool
is_malformed c =
    (has_prefix (body c) (text "solidify:ignore") || has_prefix (body c) (text "solidlint:ignore"))
    && not (is_justified (fields (body c)))

abbrev fails : Parsed → Bool
fails malformed = true
fails _ = false

verb-lookup : (verb : Text) → is_some (lookup verb suppression_verbs) ≡ listed verb verbs
unfolding lookup listed
verb-lookup verb = ground (
  arith,
  text_eq_comm verb (text "solidify:ignore"),
  text_eq_comm verb (text "solidify:ignore-file"),
  text_eq_comm verb (text "solidlint:ignore"),
  text_eq_comm verb (text "solidlint:ignore-file"),
)

parse_words-fails : (words : List Text) → fails (parse_words words) ≡ not (is_justified words)
unfolding parse_words
parse_words-fails [] = refl
parse_words-fails (verb ∷ []) = refl
parse_words-fails (verb ∷ id ∷ []) = refl
parse_words-fails (verb ∷ id ∷ word ∷ rest) = elim (Option-cases (lookup verb suppression_verbs)) [
  | inl e ↦ ground (arith, e, verb-lookup verb)
  | inr (file_level, e) ↦ ground (arith, e, verb-lookup verb, Bool-cases (is_known_check_id id))
]

parse_suppression_comment-fails :
    (c : Comment) → fails (parse_suppression_comment c.text) ≡ is_malformed c
unfolding parse_suppression_comment
parse_suppression_comment-fails c = ground (arith, parse_words-fails (fields (body c)))

-- The first comment of all that passes a test.
abbrev pub first_comment : (Comment → Bool) → List Comment → Option Comment
first_comment p [] = none
first_comment p (c ∷ comments) = if p c then some c else first_comment p comments

abbrev pub reported : Option Comment → Result Comment (Unit {0})
reported none = ok tt
reported (some c) = err c

validate_comments-first :
    (comments : List Comment)
    → validate_comments comments ≡ reported (first_comment is_malformed comments)
unfolding validate_comments
validate_comments-first [] = refl
validate_comments-first (c ∷ comments) =
    ground (arith, validate_comments-first comments, parse_suppression_comment-fails c)

first_comment-append :
    (p : Comment → Bool) (l m : List Comment)
    → first_comment p (l ++ m)
      ≡ elim (first_comment p l) [ some c ↦ some c | none ↦ first_comment p m ]
first_comment-append p [] m = refl
first_comment-append p (c ∷ l) m = ground (arith, first_comment-append p l m)

-- The comment that is reported is the first malformed one of all files, one file after the other, and
-- the suppressions are valid when there is none. A comment is malformed that begins with one of the
-- two words for ignoring but is not one of the four verbs, the ID of a known check or family, and at least one
-- word more.
pub validate_suppressions-first :
    (files : List SourceFile)
    → validate_suppressions files ≡ reported (first_comment is_malformed (comments_of files))
unfolding validate_suppressions
validate_suppressions-first [] = refl
validate_suppressions-first (f ∷ files) = ground (
  arith,
  validate_comments-first f.comments,
  validate_suppressions-first files,
  first_comment-append is_malformed f.comments (comments_of files),
)
