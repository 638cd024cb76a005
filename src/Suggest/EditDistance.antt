-- ===== src/Suggest/EditDistance.antt =====
-- internal/analyzer/control_yaml.go: editDistance. The two arrays are rows of the table: `previous`
-- is row i - 1 when row i is filled from left to right.
use solidify.Base.{
  ◌==◌, if◌then◌else◌, length, Text, text_eq, ℕ, zero, suc, ◌+◌, min, List, [], ◌∷◌,
}

-- `cost` of the inner loop.
abbrev pub substitution_cost : ℕ → ℕ → ℕ
substitution_cost c d = if c == d then 0 else 1

-- current[j..] for the bytes right[j-1..], where `diagonal` is previous[j-1], `above` holds
-- previous[j..], and `last` is current[j-1].
unfoldable pub fill_row : ℕ → Text → ℕ → List ℕ → ℕ → List ℕ
fill_row c [] diagonal above last = []
fill_row c (d ∷ right) diagonal [] last = []
fill_row c (d ∷ right) diagonal (up ∷ above) last =
    let next = min (min (last + 1) (up + 1)) (diagonal + substitution_cost c d) in
    next ∷ fill_row c right up above next

-- `for index := range previous { previous[index] = index }`
unfoldable pub first_row : ℕ → Text → List ℕ
first_row index [] = index ∷ []
first_row index (d ∷ right) = index ∷ first_row (index + 1) right

-- The outer loop from row `i` on.
unfoldable pub fill_rows : ℕ → Text → Text → List ℕ → List ℕ
fill_rows i right [] previous = previous
fill_rows i right (c ∷ left) [] = []
fill_rows i right (c ∷ left) (diagonal ∷ above) =
    fill_rows (i + 1) right left (i ∷ fill_row c right diagonal above i)

-- previous[j]; the loop's rows have that many entries.
unfoldable pub entry_at : List ℕ → ℕ → ℕ
entry_at [] j = 0
entry_at (x ∷ row) zero = x
entry_at (x ∷ row) (suc j) = entry_at row j

unfoldable pub edit_distance : Text → Text → ℕ
edit_distance left right =
    if text_eq left right
    then 0
    else if length left == 0
    then length right
    else if length right == 0
    then length left
    else entry_at (fill_rows 1 right left (first_row 0 right)) (length right)
