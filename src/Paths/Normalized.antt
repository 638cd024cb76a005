-- ===== src/Paths/Normalized.antt =====
-- internal/analyzer/paths.go: normalizedPath and the predicates and paths that rest on it.
use solidify.Base.{
  leb, ◌==◌, if◌then◌else◌, length, Text, text, text_eq, text_eq_iff, lower_byte, to_lower,
  trim_right, replace_byte, has_prefix, trim_prefix, trim_suffix, without_prefix-append, ◌≡◌, ◌≢◌,
  ◌⊎◌, Bool, true, false, not, ◌&&◌, ◌||◌, Option, none, some, [], ◌∷◌, ◌++◌, arith,
}
use solidify.Paths.Clean.{slash, dot, is_rooted, clean}

-- A drive letter, a colon and a slash.
unfoldable pub windows_style_path : Text → Bool
windows_style_path (a ∷ b ∷ c ∷ rest) =
    ((leb 97 a && leb a 122) || (leb 65 a && leb a 90)) && b == 58 && (c == 47 || c == 92)
windows_style_path _ = false

-- strings.EqualFold, on ASCII texts
abbrev equal_fold : Text → Text → Bool
equal_fold s t = text_eq (to_lower s) (to_lower t)

-- The filename past the root and a slash, if that is how it begins but for the case of its letters.
unfoldable pub past_root : Text → Text → Option Text
past_root [] [] = none
past_root [] (c ∷ s) = if c == 47 then some s else none
past_root (r ∷ root) [] = none
past_root (r ∷ root) (c ∷ s) =
    let rest = past_root root s in if lower_byte r == lower_byte c then rest else none

unfoldable pub normalized_windows_path : Text → Text → Text × Bool
normalized_windows_path root filename =
    let root' = trim_right (λ c. c == 47) (replace_byte 92 47 root) in
    let filename' = replace_byte 92 47 filename in
    if length root' == 0
    then (filename', false)
    else if equal_fold filename' root'
    then (dot, true)
    else elim (past_root root' filename') [ some rest ↦ (rest, true) | none ↦ (filename', false) ]

unfoldable pub normalized_slash_path : Text → Text → Text × Bool
normalized_slash_path root filename =
    let root' = clean root in
    let filename' = clean filename in
    let prefix = trim_suffix root' slash ++ slash in
    if text_eq filename' dot || length filename' == 0
    then ([], false)
    else if text_eq root' dot || length root' == 0
    then (filename', not (is_rooted filename'))
    else if not (is_rooted filename')
    then (filename', true)
    else if text_eq filename' root'
    then (dot, true)
    else if has_prefix filename' prefix
    then (trim_prefix filename' prefix, true)
    else (filename', false)

-- Two relative paths: on a system with slashes, what Go cleans stays relative, so that the branches
-- below `!filepath.IsAbs(filename)` are not reached.
unfoldable pub normalized_relative_path : Text → Text × Bool
normalized_relative_path filename =
    let filename' = clean filename in
    if text_eq filename' dot || length filename' == 0 then ([], false) else (filename', true)

unfoldable pub normalized_path : Text → Text → Text × Bool
normalized_path root filename =
    if windows_style_path root || windows_style_path filename
    then normalized_windows_path root filename
    else if is_rooted root || is_rooted filename
    then normalized_slash_path root filename
    else normalized_relative_path filename

unfoldable pub inside_analysis_root : Text → Text → Bool
inside_analysis_root root filename = (normalized_path root filename).1

unfoldable pub portable_path : Text → Text → Text
portable_path root filename = (normalized_path root filename).0

unfoldable pub is_external_path : Text → Text → Bool
is_external_path root filename = not (normalized_path root filename).1

-- `digest` is the SHA-256 sum in hexadecimal digits.
unfoldable pub fingerprint_path : (Text → Text) → Text → Text → Text
fingerprint_path digest root filename =
    let (path, inside) = normalized_path root filename in
    if inside then path else text "external:" ++ digest (clean filename)

rooted-ne-dot : (s : Text) → is_rooted s ≡ true → (text_eq s dot || length s == 0) ≡ false
unfolding has_prefix text_eq
rooted-ne-dot [] h = ground arith
rooted-ne-dot (c ∷ s) h = ground arith

-- The root with a slash behind it.
abbrev pub root_prefix : Text → Text
root_prefix root = trim_suffix (clean root) slash ++ slash

-- Where the cleaned root and the cleaned file both begin with a slash, the path that is returned for a
-- file inside is "." for the root itself and else what follows the root and a slash, so that the
-- cleaned file can be had back from it; a file outside neither is the root nor has it as a prefix,
-- and is returned cleaned.
pub normalized_slash_path-inside :
    (root filename : Text)
    → is_rooted (clean root) ≡ true
    → is_rooted (clean filename) ≡ true
    → ((normalized_slash_path root filename).1 ≡ true
        → ((normalized_slash_path root filename).0 ≡ dot) × (clean filename ≡ clean root)
          ⊎ (root_prefix root ++ (normalized_slash_path root filename).0 ≡ clean filename))
      × ((normalized_slash_path root filename).1 ≡ false
          → ((normalized_slash_path root filename).0 ≡ clean filename)
            × (clean filename ≢ clean root)
            × (has_prefix (clean filename) (root_prefix root) ≡ false))
unfolding normalized_slash_path trim_prefix
normalized_slash_path-inside root filename hr hf =
    let fact = rooted-ne-dot (clean root) hr in
    let fact' = rooted-ne-dot (clean filename) hf in
    (
      λ h. ground (
        arith,
        fact,
        fact',
        h,
        hf,
        text_eq_iff (clean filename) (clean root),
        without_prefix-append (root_prefix root) (clean filename),
      ),
      λ h. (
        ground (arith, fact, fact', h, hf),
        ground (arith, fact, fact', h, hf, text_eq_iff (clean filename) (clean root)),
        ground (arith, fact, fact', h, hf),
      ),
    )
