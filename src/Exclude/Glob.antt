-- ===== src/Exclude/Glob.antt =====
-- internal/analyzer/control.go: Excluded and ValidateExcludePatterns. What filepath.Match says of one
-- element is a parameter, none where it returns an error; filepath.ToSlash changes nothing on a
-- system whose paths are separated by slashes, and is left out.
use solidify.Base.{
  ◌==◌, if◌then◌else◌, length, any, Text, text, text_eq, ◌>>=◌, Result, trim_left, trim_right,
  trim_space, has_prefix, has_suffix, trim_suffix, contains, Bool, true, false, ◌&&◌, ◌||◌, Option,
  none, some, List, [], ◌∷◌, ◌++◌, ok, err,
}
use solidify.Paths.Clean.{split_on}

abbrev pub SegmentMatch : Type 0
SegmentMatch = Text → Text → Option Bool

abbrev pub double_star : Text
double_star = text "**"

-- strings.Trim(s, "/")
unfoldable pub trim_slashes : Text → Text
trim_slashes s = trim_right (λ c. c == 47) (trim_left (λ c. c == 47) s)

-- The slices `parts[next:]` for `next` up to and with the length.
unfoldable pub suffixes : List Text → List (List Text)
suffixes [] = [] ∷ []
suffixes (v ∷ values) = (v ∷ values) ∷ suffixes values

abbrev pub is_nil : List Text → Bool
is_nil [] = true
is_nil (v ∷ values) = false

abbrev holds : Option Bool → Bool
holds none = false
holds (some b) = b

-- The function `match`, with the rest of the pattern for `pi` and the rest of the value for `vi`.
unfoldable pub match_parts : SegmentMatch → List Text → List Text → Bool
unfolding suffixes
match_parts g [] values = is_nil values
match_parts g (part ∷ pattern) [] =
    let deeper = any (match_parts g pattern) (suffixes []) in
    text_eq part double_star && (is_nil pattern || deeper)
match_parts g (part ∷ pattern) (v ∷ values) =
    let deeper = any (match_parts g pattern) (suffixes (v ∷ values)) in
    let next = match_parts g pattern values in
    if text_eq part double_star then is_nil pattern || deeper else holds (g part v) && next

abbrev pub rest_of : List Text → List Text
rest_of [] = []
rest_of (v ∷ values) = values

-- The last loop of doublestarMatch: the value without its first elements, as long as one is left.
unfoldable pub match_deeper : SegmentMatch → List Text → List Text → Bool
match_deeper g pattern [] = false
match_deeper g pattern (v ∷ values) =
    let deeper = match_deeper g pattern values in match_parts g pattern (v ∷ values) || deeper

unfoldable pub doublestar_match : SegmentMatch → Text → Text → Bool
doublestar_match g pattern value =
    let pattern' = trim_slashes pattern in
    let value' = trim_slashes value in
    let pattern_parts = split_on 47 pattern' in
    let value_parts = split_on 47 value' in
    text_eq pattern' value'
    || (match_parts g pattern_parts value_parts
        || match_deeper g pattern_parts (rest_of value_parts))

unfoldable pub path_matches_dir_prefix : Text → Text → Bool
path_matches_dir_prefix path prefix =
    let prefix' = trim_slashes prefix in
    if length prefix' == 0
    then false
    else if text_eq path prefix'
    then true
    else if has_prefix path (prefix' ++ (47 ∷ []))
    then true
    else contains path (47 ∷ (prefix' ++ (47 ∷ [])))

-- One round of the loop of Excluded.
unfoldable pub excludes : SegmentMatch → Text → Text → Bool
excludes g path pattern =
    let p = trim_space pattern in
    if length p == 0
    then false
    else if has_suffix p (text "/**") && path_matches_dir_prefix path (trim_suffix p (text "/**"))
    then true
    else doublestar_match g p path

unfoldable pub excluded : SegmentMatch → Text → List Text → Bool
excluded g path [] = false
excluded g path (p ∷ patterns) =
    let rest = excluded g path patterns in if excludes g path p then true else rest

pub data PatternError : Type 0 where
  empty_pattern : PatternError
  bad_pattern : Text → PatternError

-- The element "x" is what validateExcludePattern tries each part on.
unfoldable pub validate_parts : SegmentMatch → Text → List Text → Result PatternError (Unit {0})
validate_parts g pattern [] = ok tt
validate_parts g pattern (part ∷ parts) =
    let rest = validate_parts g pattern parts in
    if length part == 0 || text_eq part double_star
    then rest
    else elim (g part (text "x")) [ none ↦ err (bad_pattern pattern) | some _ ↦ rest ]

unfoldable pub validate_exclude_pattern : SegmentMatch → Text → Result PatternError (Unit {0})
validate_exclude_pattern g pattern =
    let p = trim_slashes pattern in
    if length p == 0 then err empty_pattern else validate_parts g p (split_on 47 p)

unfoldable pub validate_exclude_patterns : SegmentMatch → List Text → Result PatternError (Unit {0})
validate_exclude_patterns g [] = ok tt
validate_exclude_patterns g (pattern ∷ patterns) =
    let p = trim_space pattern in
    let rest = validate_exclude_patterns g patterns in
    let checked : Result PatternError (Unit {0}) = do _ ← validate_exclude_pattern g p; rest
    in if length p == 0 then rest else checked
