-- ===== src/Issues/Evidence.antt =====
-- internal/analyzer/types.go: the identity of a finding from its evidence.
use solidify.Base.{
  ◌==◌, if◌then◌else◌, length, Text, text, Map, lookup, insert, trim_space, has_prefix, trim_suffix,
  ℕ, Bool, ◌||◌, Option, none, some, List, [], ◌∷◌, ◌++◌,
}
use solidify.Paths.Clean.{split_on, join}
use solidify.Issues.Issue.{Issue, Platform}

abbrev cut_rest : ℕ → Option (Text × Text) → Option (Text × Text)
cut_rest c none = none
cut_rest c (some (before, after)) = some (c ∷ before, after)

abbrev or_empty : Option Text → Text
or_empty none = []
or_empty (some s) = s

-- `if s == "" { s = fallback }`
abbrev or_default : Text → Text → Text
or_default fallback [] = fallback
or_default fallback s = s

abbrev add_field : Map Text → Option (Text × Text) → Map Text
add_field fields none = fields
add_field fields (some (key, value)) = insert (trim_space key) (trim_space value) fields

-- strings.Cut for a single byte
unfoldable pub cut : ℕ → Text → Option (Text × Text)
cut sep [] = none
cut sep (c ∷ s) = let rest = cut_rest c (cut sep s) in if c == sep then some ([], s) else rest

-- The body of the loop over the parts.
unfoldable pub add_fields : Map Text → List Text → Map Text
add_fields fields [] = fields
add_fields fields (part ∷ parts) = add_fields (add_field fields (cut 61 part)) parts

-- The prefix ends at a colon in the first part, which then goes on as a field.
abbrev parse_first : Text → List Text → Option (Text × Text) → Text × Map Text
parse_first first rest none = (trim_space first, add_fields [] (first ∷ rest))
parse_first first rest (some (before, after)) = (before, add_fields [] (after ∷ rest))

abbrev parse_parts : List Text → Text × Map Text
parse_parts [] = ([], [])
parse_parts (first ∷ rest) = parse_first first rest (cut 58 (trim_space first))

unfoldable pub parse_evidence_identity : Text → Text × Map Text
parse_evidence_identity evidence = parse_parts (split_on 59 evidence)

-- `fields[key]`
unfoldable pub field_of : Map Text → Text → Text
field_of fields key = or_empty (lookup key fields)

unfoldable pub first_identity_field : Map Text → List Text → Text
first_identity_field fields [] = []
first_identity_field fields (key ∷ keys) =
    let rest = first_identity_field fields keys in
    if length (field_of fields key) == 0 then rest else field_of fields key

abbrev pub subject_keys : List Text
subject_keys =
    text "type"
    ∷ text "function"
    ∷ text "method"
    ∷ text "interface"
    ∷ text "package"
    ∷ text "field"
    ∷ text "factory"
    ∷ text "source"
    ∷ text "from"
    ∷ []

abbrev pub identity_keys : List Text
identity_keys =
    text "type"
    ∷ text "function"
    ∷ text "method"
    ∷ text "interface"
    ∷ text "package"
    ∷ text "field"
    ∷ text "factory"
    ∷ text "source"
    ∷ text "from"
    ∷ text "to"
    ∷ text "peer"
    ∷ text "parameter"
    ∷ text "parameters"
    ∷ text "dependency"
    ∷ text "import"
    ∷ text "kind"
    ∷ text "variants"
    ∷ text "shared"
    ∷ text "methods"
    ∷ []

unfoldable pub numeric_identity_value : Platform → Text → Bool
numeric_identity_value p value = p.is_float (trim_suffix value (text "%"))

-- The loop over the keys of the identity.
unfoldable pub identity_parts : Platform → Map Text → List Text → List Text
identity_parts p fields [] = []
identity_parts p fields (key ∷ keys) =
    let value = field_of fields key in
    let rest = identity_parts p fields keys in
    if length value == 0 || numeric_identity_value p value
    then rest
    else (key ++ (61 ∷ value)) ∷ rest

unfoldable pub derive_issue_identity : Platform → Issue → Text → Text × Text
derive_issue_identity p i package_path =
    let (prefix, fields) = parse_evidence_identity i.evidence in
    let subject_key = or_default prefix (first_identity_field fields subject_keys) in
    let path = or_default (text "package") package_path in
    let qualifier = path ++ text "." in
    let subject =
      if has_prefix subject_key qualifier then subject_key else qualifier ++ subject_key in
    (subject, or_default prefix (join (text ";") (prefix ∷ identity_parts p fields identity_keys)))
