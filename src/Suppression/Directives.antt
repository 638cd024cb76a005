-- ===== src/Suppression/Directives.antt =====
-- internal/analyzer/run.go: the directives in comments and the declaration headers. Go's parser and
-- its positions are taken as done: a file is its declarations and comments with their lines.
use solidify.Base.{
  text, if◌then◌else◌, Text, Map, lookup, append_at, ◌>>=◌, Result, trim_space, has_prefix,
  trim_prefix, fields, ℕ, Bool, true, false, ◌||◌, Option, none, some, List, [], ◌∷◌, ◌++◌, ok, err,
}
use solidify.Registry.Index.{is_known_check_id}

pub record Comment : Type 0 where
  pub text : Text
  pub filename : Text
  pub line : ℕ

-- An `*ast.FuncDecl`, its body's brace and its doc comment where it has them, and a type's `ast.Spec`.
pub record FunctionDeclaration : Type 0 where
  pub line : ℕ
  pub doc_line : Option ℕ
  pub end_line : ℕ
  pub brace_line : Option ℕ

pub record TypeSpec : Type 0 where
  pub line : ℕ
  pub end_line : ℕ

pub data Declaration : Type 0 where
  function : FunctionDeclaration → Declaration
  general : Option ℕ → List (Option TypeSpec) → Declaration

pub record SourceFile : Type 0 where
  pub filename : Text
  pub declarations : List Declaration
  pub comments : List Comment

pub record SuppressionDirective : Type 0 where
  pub rule : Text
  pub line : ℕ
  pub file_level : Bool

abbrev pub suppression_verbs : Map Bool
suppression_verbs =
    (text "solidify:ignore", false)
    ∷ (text "solidify:ignore-file", true)
    ∷ (text "solidlint:ignore", false)
    ∷ (text "solidlint:ignore-file", true)
    ∷ []

-- The three results of parseSuppressionComment: no candidate, a candidate that is not ok, and a
-- directive, whose line is still open.
pub data Parsed : Type 0 where
  unrelated : Parsed
  malformed : Parsed
  directive : SuppressionDirective → Parsed

unfoldable pub parse_words : List Text → Parsed
parse_words (verb ∷ id ∷ word ∷ rest) = elim (lookup verb suppression_verbs) [
  | some file_level ↦
      if is_known_check_id id
      then directive (record { rule = id; line = 0; file_level = file_level })
      else malformed
  | none ↦ malformed
]
parse_words _ = malformed

unfoldable pub parse_suppression_comment : Text → Parsed
parse_suppression_comment s =
    let s = trim_space (trim_prefix s (text "//")) in
    if has_prefix s (text "solidify:ignore") || has_prefix s (text "solidlint:ignore")
    then parse_words (fields s)
    else unrelated

pub record DeclarationSpan : Type 0 where
  pub start : ℕ
  pub end : ℕ

abbrev line_or : ℕ → Option ℕ → ℕ
line_or line none = line
line_or line (some other) = other

unfoldable pub function_declaration_span : FunctionDeclaration → DeclarationSpan
function_declaration_span f = record {
  start = line_or f.line f.doc_line;
  end = line_or f.end_line f.brace_line;
}

unfoldable pub type_declaration_spans : Option ℕ → List (Option TypeSpec) → List DeclarationSpan
type_declaration_spans doc [] = []
type_declaration_spans doc (none ∷ specs) = type_declaration_spans doc specs
type_declaration_spans doc (some t ∷ specs) =
    (record { start = line_or t.line doc; end = t.end_line }) ∷ type_declaration_spans doc specs

unfoldable pub declaration_header_spans : List Declaration → List DeclarationSpan
declaration_header_spans [] = []
declaration_header_spans (function f ∷ declarations) =
    function_declaration_span f ∷ declaration_header_spans declarations
declaration_header_spans (general doc specs ∷ declarations) =
    type_declaration_spans doc specs ++ declaration_header_spans declarations

abbrev pub directives_of : ℕ → Parsed → List SuppressionDirective
directives_of line (directive d) = (record d { line = line }) ∷ []
directives_of line _ = []

-- suppressionDirectives and the loop over its result, which adds each file's directives to
-- `byFile`: both keep the order of the comments of one file, and nothing reads another order.
unfoldable pub suppression_directives :
    List Comment → Map (List SuppressionDirective) → Map (List SuppressionDirective)
suppression_directives [] by_file = by_file
suppression_directives (c ∷ comments) by_file =
    suppression_directives comments (elim (parse_suppression_comment c.text) [
      | directive d ↦ append_at c.filename ((record d { line = c.line }) ∷ []) by_file
      | _ ↦ by_file
    ])

-- `byFile` and `spansByFile`
unfoldable pub collect_suppression_metadata :
    List SourceFile
    → Map (List SuppressionDirective)
    → Map (List DeclarationSpan)
    → Map (List SuppressionDirective) × Map (List DeclarationSpan)
collect_suppression_metadata [] by_file spans_by_file = (by_file, spans_by_file)
collect_suppression_metadata (f ∷ files) by_file spans_by_file =
    collect_suppression_metadata files (suppression_directives f.comments by_file)
      (append_at f.filename (declaration_header_spans f.declarations) spans_by_file)

-- The first malformed comment, which ValidateSuppressions reports.
unfoldable pub validate_comments : List Comment → Result Comment (Unit {0})
validate_comments [] = ok tt
validate_comments (c ∷ comments) =
    let rest = validate_comments comments in
    elim (parse_suppression_comment c.text) [ malformed ↦ err c | _ ↦ rest ]

unfoldable pub validate_suppressions : List SourceFile → Result Comment (Unit {0})
validate_suppressions [] = ok tt
validate_suppressions (f ∷ files) = do _ ← validate_comments f.comments; validate_suppressions files
