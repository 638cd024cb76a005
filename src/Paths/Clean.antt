-- ===== src/Paths/Clean.antt =====
-- Go's path.Clean, which filepath.Clean is on a system whose paths are separated by slashes.
use solidify.Base.{
  ◌==◌, if◌then◌else◌, length, Text, text, text_eq, has_prefix, reverse, ℕ, Bool, true, false, ◌||◌,
  List, [], ◌∷◌, ◌++◌,
}

abbrev pub add_byte : ℕ → List Text → List Text
add_byte c [] = (c ∷ []) ∷ []
add_byte c (part ∷ parts) = (c ∷ part) ∷ parts

-- strings.Split for a single byte
unfoldable pub split_on : ℕ → Text → List Text
split_on sep [] = [] ∷ []
split_on sep (c ∷ s) =
    let parts = split_on sep s in if c == sep then [] ∷ parts else add_byte c parts

-- strings.Join
unfoldable pub join : Text → List Text → Text
join sep [] = []
join sep (part ∷ []) = part
join sep (part ∷ next ∷ parts) = part ++ (sep ++ join sep (next ∷ parts))

abbrev pub dot : Text
dot = text "."

abbrev pub dot_dot : Text
dot_dot = text ".."

abbrev pub slash : Text
slash = text "/"

abbrev pub is_rooted : Text → Bool
is_rooted s = has_prefix s slash

-- `..` takes back the element before it. At the root it is dropped, and else it stays.
unfoldable pub go_up : Bool → List Text → List Text
go_up true [] = []
go_up false [] = dot_dot ∷ []
go_up rooted (part ∷ kept) = if text_eq part dot_dot then dot_dot ∷ part ∷ kept else kept

-- The elements kept so far, the last one first.
unfoldable pub clean_parts : Bool → List Text → List Text → List Text
clean_parts rooted kept [] = kept
clean_parts rooted kept (part ∷ parts) =
    let kept' =
      if length part == 0 || text_eq part dot
      then kept
      else if text_eq part dot_dot
      then go_up rooted kept
      else part ∷ kept in
    clean_parts rooted kept' parts

abbrev pub or_dot : Text → Text
or_dot [] = dot
or_dot s = s

unfoldable pub clean : Text → Text
clean s =
    let rooted = is_rooted s in
    or_dot (
      (if rooted then slash else [])
      ++ join slash (reverse (clean_parts rooted [] (split_on 47 s))))
