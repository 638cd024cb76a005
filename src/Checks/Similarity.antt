-- ===== src/Checks/Similarity.antt =====
-- internal/analyzer/ocp_util.go: the similarity of two functions by runs of five normalized tokens. A
-- set of strings is a list in which none stands twice; its order means nothing.
use solidify.Base.{
  ltb, ◌==◌, if◌then◌else◌, length, keep, Text, text, listed, ℕ, zero, suc, ◌+◌, ◌-◌, ◌*◌, ◌/◌,
  ◌||◌, List, [], ◌∷◌,
}
use solidify.Paths.Clean.{join}

abbrev pub first : ℕ → List Text → List Text
first zero tokens = []
first (suc n) [] = []
first (suc n) (t ∷ tokens) = t ∷ first n tokens

abbrev pub add_value : Text → List Text → List Text
add_value value out = if listed value out then out else value ∷ out

-- The loop from the token on that the list starts with.
unfoldable pub add_shingles : List Text → List Text → List Text
add_shingles [] out = out
add_shingles (t ∷ tokens) out =
    let rest = add_shingles tokens (add_value (join (text "|") (first 5 (t ∷ tokens))) out) in
    if ltb (length (t ∷ tokens)) 5 then out else rest

unfoldable pub token_shingles : List Text → List Text
token_shingles tokens = if ltb (length tokens) 5 then [] else add_shingles tokens []

-- The values of the first set that the second has.
abbrev pub common : List Text → List Text → ℕ
common a b = length (keep (λ value. listed value b) a)

unfoldable pub similarity_percent : List Text → List Text → ℕ
similarity_percent a b =
    if length a == 0 || length b == 0
    then 0
    else (100 * common a b) / (length a + length b - common a b)
