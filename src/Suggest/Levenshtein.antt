-- ===== src/Suggest/Levenshtein.antt =====
-- What editDistance computes: the least number of single-byte edits between two texts.
use solidify.Base.{
  ◌==◌, ==_iff, Bool-cases, if_ind, length, Text, text_eq, text_eq-eq, ℕ, suc, ◌+◌, ◌≤◌, min, ◌≡◌,
  refl, sym, ap, ◌∙◌, subst, ◌⊎◌, inl, inr, true, List, [], ◌∷◌, ◌++◌, append-nil, arith,
}
use solidify.Suggest.EditDistance.{
  edit_distance, substitution_cost, fill_row, first_row, fill_rows, entry_at, edit_distance,
}

-- A way to turn the first text into the second by so many edits.
pub data Edits : Text → Text → ℕ → Type 0 where
  done : Edits [] [] 0
  same : {s t : Text} {n : ℕ} (c : ℕ) → Edits s t n → Edits (c ∷ s) (c ∷ t) n
  replace : {s t : Text} {n : ℕ} (c d : ℕ) → Edits s t n → Edits (c ∷ s) (d ∷ t) (suc n)
  insertion : {s t : Text} {n : ℕ} (d : ℕ) → Edits s t n → Edits s (d ∷ t) (suc n)
  deletion : {s t : Text} {n : ℕ} (c : ℕ) → Edits s t n → Edits (c ∷ s) t (suc n)

-- The recurrence that the table fills.
lev : Text → Text → ℕ
lev [] t = length t
lev (c ∷ s) [] = suc (length s)
lev (c ∷ s) (d ∷ t) =
    min (min (lev (c ∷ s) t + 1) (lev s (d ∷ t) + 1)) (lev s t + substitution_cost c d)

lev-nil : (s : Text) → lev s [] ≡ length s
unfolding lev
lev-nil [] = refl
lev-nil (c ∷ s) = refl

lev-insertion : (s t : Text) (d : ℕ) → lev s (d ∷ t) ≤ lev s t + 1
unfolding lev
lev-insertion [] t d = omega arith
lev-insertion (c ∷ s) t d = omega arith

lev-deletion : (s t : Text) (c : ℕ) → lev (c ∷ s) t ≤ lev s t + 1
unfolding lev
lev-deletion s [] c = omega (arith, lev-nil s)
lev-deletion s (d ∷ t) c = omega arith

lev-replace : (s t : Text) (c d : ℕ) → lev (c ∷ s) (d ∷ t) ≤ lev s t + substitution_cost c d
unfolding lev
lev-replace s t c d = omega arith

lev-le : {s t : Text} {n : ℕ} → Edits s t n → lev s t ≤ n
unfolding lev
lev-le done = omega arith
lev-le (same {s} {t} c e) = ground (arith, lev-replace s t c c, lev-le e)
lev-le (replace {s} {t} c d e) = ground (arith, lev-replace s t c d, lev-le e)
lev-le (insertion {s} {t} d e) = omega (arith, lev-insertion s t d, lev-le e)
lev-le (deletion {s} {t} c e) = omega (arith, lev-deletion s t c, lev-le e)

row_tail : Text → Text → Text → List ℕ
row_tail ls rs [] = []
row_tail ls rs (d ∷ right) = lev ls (d ∷ rs) ∷ row_tail ls (d ∷ rs) right

fill_row-row_tail :
    (c : ℕ) (ls rs right : Text)
    → fill_row c right (lev ls rs) (row_tail ls rs right) (lev (c ∷ ls) rs)
      ≡ row_tail (c ∷ ls) rs right
unfolding fill_row row_tail lev
fill_row-row_tail c ls rs [] = refl
fill_row-row_tail c ls rs (d ∷ right) =
    ap (λ r. lev (c ∷ ls) (d ∷ rs) ∷ r) (fill_row-row_tail c ls (d ∷ rs) right)

first_row-row_tail :
    (rs right : Text) → first_row (length rs) right ≡ length rs ∷ row_tail [] rs right
unfolding first_row row_tail lev
first_row-row_tail rs [] = refl
first_row-row_tail rs (d ∷ right) = ground (arith, first_row-row_tail (d ∷ rs) right)

-- The table's row for a text read backwards.
row_of : Text → Text → List ℕ
row_of ls right = lev ls [] ∷ row_tail ls [] right

rev_onto : Text → Text → Text
rev_onto [] acc = acc
rev_onto (c ∷ s) acc = rev_onto s (c ∷ acc)

fill_rows-row_of :
    (right left ls : Text)
    → fill_rows (suc (length ls)) right left (row_of ls right) ≡ row_of (rev_onto left ls) right
unfolding fill_rows row_of rev_onto lev
fill_rows-row_of right [] ls = refl
fill_rows-row_of right (c ∷ left) ls =
    ground (arith, fill_row-row_tail c ls [] right, fill_rows-row_of right left (c ∷ ls))

entry_at-row_tail :
    (ls rs right : Text)
    → entry_at (lev ls rs ∷ row_tail ls rs right) (length right) ≡ lev ls (rev_onto right rs)
unfolding entry_at row_tail rev_onto
entry_at-row_tail ls rs [] = refl
entry_at-row_tail ls rs (d ∷ right) = entry_at-row_tail ls (d ∷ rs) right

-- The table's last entry is the recurrence on the two texts read backwards.
table-lev :
    (left right : Text)
    → entry_at (fill_rows 1 right left (first_row 0 right)) (length right)
      ≡ lev (rev_onto left []) (rev_onto right [])
unfolding row_of fill_rows lev
table-lev left right =
    ap (λ r. entry_at (fill_rows 1 right left r) (length right)) (first_row-row_tail [] right)
    ∙ ap (λ r. entry_at r (length right)) (fill_rows-row_of right left [])
    ∙ entry_at-row_tail (rev_onto left []) [] right

Edits-cost : {s t : Text} {m n : ℕ} → m ≡ n → Edits s t m → Edits s t n
Edits-cost {s} {t} e d = subst (Edits s t) e d

Edits-rev_onto :
    {s t u v : Text} {m n : ℕ}
    → Edits s t n
    → Edits u v m
    → Edits (rev_onto s u) (rev_onto t v) (n + m)
unfolding rev_onto
Edits-rev_onto done a = Edits-cost (omega arith) a
Edits-rev_onto (same c e) a = Edits-rev_onto e (same c a)
Edits-rev_onto (replace c d e) a = Edits-cost (omega arith) (Edits-rev_onto e (replace c d a))
Edits-rev_onto (insertion d e) a = Edits-cost (omega arith) (Edits-rev_onto e (insertion d a))
Edits-rev_onto (deletion c e) a = Edits-cost (omega arith) (Edits-rev_onto e (deletion c a))

rev_onto-rev_onto : (s a b : Text) → rev_onto (rev_onto s a) b ≡ rev_onto a (s ++ b)
unfolding rev_onto
rev_onto-rev_onto [] a b = refl
rev_onto-rev_onto (c ∷ s) a b = rev_onto-rev_onto s (c ∷ a) b

rev_twice : (s : Text) → rev_onto (rev_onto s []) [] ≡ s
unfolding rev_onto
rev_twice s = rev_onto-rev_onto s [] [] ∙ append-nil s

Edits-insertions : (t : Text) → Edits [] t (length t)
Edits-insertions [] = done
Edits-insertions (d ∷ t) = insertion d (Edits-insertions t)

Edits-deletions : (s : Text) → Edits s [] (length s)
Edits-deletions [] = done
Edits-deletions (c ∷ s) = deletion c (Edits-deletions s)

Edits-substitution :
    {s t : Text} {n : ℕ} (c d : ℕ) → Edits s t n → Edits (c ∷ s) (d ∷ t) (n + substitution_cost c d)
Edits-substitution {s} {t} {n} c d e = elim (Bool-cases (c == d)) [
  | inl h ↦
      subst (λ x. Edits (c ∷ s) (x ∷ t) (n + substitution_cost c d)) ((==_iff c d).0 h)
        (Edits-cost (ground arith) (same c e))
  | inr h ↦ Edits-cost (ground arith) (replace c d e)
]

min_cases : (a b x : ℕ) → (min (min a b) x ≡ a) ⊎ ((min (min a b) x ≡ b) ⊎ (min (min a b) x ≡ x))
min_cases a b x = omega arith

lev-Edits : (s t : Text) → Edits s t (lev s t)
unfolding lev
lev-Edits [] t = Edits-insertions t
lev-Edits (c ∷ s) [] = Edits-deletions (c ∷ s)
lev-Edits (c ∷ s) (d ∷ t) =
    elim (min_cases (lev (c ∷ s) t + 1) (lev s (d ∷ t) + 1) (lev s t + substitution_cost c d)) [
      | inl e ↦ Edits-cost (omega arith) (insertion d (lev-Edits (c ∷ s) t))
      | inr (inl e) ↦ Edits-cost (omega arith) (deletion c (lev-Edits s (d ∷ t)))
      | inr (inr e) ↦ Edits-cost (sym e) (Edits-substitution c d (lev-Edits s t))
    ]

Edits-same : (s : Text) → Edits s s 0
Edits-same [] = done
Edits-same (c ∷ s) = same c (Edits-same s)

table-Edits : (left right : Text) → Edits left right (lev (rev_onto left []) (rev_onto right []))
unfolding rev_onto
table-Edits left right =
    let n = lev (rev_onto left []) (rev_onto right []) in
    let e : Edits (rev_onto (rev_onto left []) []) (rev_onto (rev_onto right []) []) n =
      Edits-cost (omega arith)
        (Edits-rev_onto (lev-Edits (rev_onto left []) (rev_onto right [])) done) in
    subst (λ x. Edits x right n) (rev_twice left)
      (subst (λ x. Edits (rev_onto (rev_onto left []) []) x n) (rev_twice right) e)

table-le :
    (left right : Text) (n : ℕ)
    → Edits left right n
    → lev (rev_onto left []) (rev_onto right []) ≤ n
table-le left right n e = omega (arith, lev-le (Edits-rev_onto e done))

lev-ge-lengths :
    {s t : Text} {n : ℕ} → Edits s t n → (length s ≤ length t + n) × (length t ≤ length s + n)
lev-ge-lengths done = omega arith
lev-ge-lengths (same c e) = omega (arith, lev-ge-lengths e)
lev-ge-lengths (replace c d e) = omega (arith, lev-ge-lengths e)
lev-ge-lengths (insertion d e) = omega (arith, lev-ge-lengths e)
lev-ge-lengths (deletion c e) = omega (arith, lev-ge-lengths e)

-- So many edits turn the one text into the other, and no fewer do.
abbrev pub IsLeast : Text → Text → ℕ → Type 0
IsLeast left right n = Edits left right n × ((m : ℕ) → Edits left right m → n ≤ m)

IsLeast-same : (left right : Text) → text_eq left right ≡ true → IsLeast left right 0
IsLeast-same left right h =
    (subst (λ x. Edits left x 0) (text_eq-eq left right h) (Edits-same left), λ m e. omega arith)

IsLeast-no_left :
    (left right : Text) → (length left == 0) ≡ true → IsLeast left right (length right)
IsLeast-no_left [] right h = (Edits-insertions right, λ m e. omega (arith, lev-ge-lengths e))
IsLeast-no_left (c ∷ left) right h = absurd (ground arith)

IsLeast-no_right :
    (left right : Text) → (length right == 0) ≡ true → IsLeast left right (length left)
IsLeast-no_right left [] h = (Edits-deletions left, λ m e. omega (arith, lev-ge-lengths e))
IsLeast-no_right left (d ∷ right) h = absurd (ground arith)

-- The distance is the least number of insertions, deletions and replacements of single bytes that
-- turn the one text into the other.
pub edit_distance-IsLeast : (left right : Text) → IsLeast left right (edit_distance left right)
unfolding edit_distance
edit_distance-IsLeast left right =
    if_ind (IsLeast left right) (text_eq left right) _ _ (IsLeast-same left right) λ _.
      if_ind (IsLeast left right) (length left == 0) _ _ (IsLeast-no_left left right) λ _.
        if_ind (IsLeast left right) (length right == 0) _ _ (IsLeast-no_right left right) λ _.
          subst (IsLeast left right) (sym (table-lev left right))
            (table-Edits left right, table-le left right)
