-- ===== src/Suggest/Nearest.antt =====
-- internal/analyzer/control_yaml.go: nearestKnownField.
use solidify.Base.{
  ltb, ◌==◌, if◌then◌else◌, ltb→lt, ltb→le, if_ind, length, All, Text, listed, listed-head,
  listed-tail, to_lower, trim_space, replace_byte, ℕ, ◌≤◌, ◌<◌, ◌≡◌, refl, sym, subst, ◌⊎◌, inl,
  inr, true, false, List, [], ◌∷◌, arith,
}
use solidify.Suggest.EditDistance.{edit_distance}

-- `strings.ToLower(strings.ReplaceAll(s, "-", "_"))`
unfoldable pub normalize_field : Text → Text
normalize_field s = to_lower (replace_byte b'-' b'_' s)

-- The loop over the known names, with `best` and `bestDistance`.
unfoldable pub nearest_in : Text → Text → ℕ → List Text → Text
nearest_in normalized best best_distance [] = best
nearest_in normalized best best_distance (candidate ∷ known) =
    let distance = edit_distance normalized (normalize_field candidate) in
    let closer = nearest_in normalized candidate distance known in
    let rest = nearest_in normalized best best_distance known in
    if ltb distance best_distance then closer else rest

unfoldable pub nearest_known_field : Text → List Text → Text
nearest_known_field input known =
    let normalized = normalize_field (trim_space input) in
    let rest = nearest_in normalized [] 3 known in if length normalized == 0 then [] else rest

-- The distance that the loop compares.
abbrev pub field_distance : Text → Text → ℕ
field_distance normalized candidate = edit_distance normalized (normalize_field candidate)

-- The outcome of the search among the names `known`, from `best` at the distance `limit`.
abbrev Outcome : Text → Text → ℕ → List Text → Text → Type 0
Outcome normalized best limit known found =
    (found ≡ best) × All (λ k. limit ≤ field_distance normalized k) known
    ⊎ (listed found known ≡ true)
      × (field_distance normalized found < limit)
      × All (λ k. field_distance normalized found ≤ field_distance normalized k) known

nearest_in-Outcome :
    (normalized best : Text) (limit : ℕ) (known : List Text)
    → Outcome normalized best limit known (nearest_in normalized best limit known)
unfolding nearest_in
nearest_in-Outcome normalized best limit [] = inl (refl, tt)
nearest_in-Outcome normalized best limit (k ∷ known) =
    if_ind (Outcome normalized best limit (k ∷ known)) (ltb (field_distance normalized k) limit) _ _
      (λ h. closer h (nearest_in-Outcome normalized k (field_distance normalized k) known))
      (λ h. rest h (nearest_in-Outcome normalized best limit known))
  where
    closer :
        ltb (field_distance normalized k) limit ≡ true
        → Outcome normalized k
            (field_distance normalized k)
            known
            (nearest_in normalized k (field_distance normalized k) known)
        → Outcome normalized best limit
            (k ∷ known)
            (nearest_in normalized k (field_distance normalized k) known)
    closer h (inl (e, far)) =
        subst (Outcome normalized best limit (k ∷ known)) (sym e)
          (inr (listed-head k known, ltb→lt _ _ h, (omega arith, far)))
    closer h (inr (m, near, least)) =
        let below = ltb→lt _ _ h in inr (listed-tail _ k known m, omega arith, (omega arith, least))

    rest :
        ltb (field_distance normalized k) limit ≡ false
        → Outcome normalized best limit known (nearest_in normalized best limit known)
        → Outcome normalized best limit (k ∷ known) (nearest_in normalized best limit known)
    rest h (inl (e, far)) = inl (e, (ltb→le _ _ h, far))
    rest h (inr (m, near, least)) =
        let above = ltb→le _ _ h in inr (listed-tail _ k known m, near, (omega arith, least))

-- The distance of a name to a text given, after both are normalized.
abbrev pub suggestion_distance : Text → Text → ℕ
suggestion_distance input k = field_distance (normalize_field (trim_space input)) k

-- For an input that is not blank the suggestion is a known name that is less than 3 edits away and
-- as near as any other, or it is empty and every known name is 3 edits away or more.
pub nearest_known_field-least :
    (input : Text) (known : List Text)
    → 0 < length (normalize_field (trim_space input))
    → (nearest_known_field input known ≡ []) × All (λ k. 3 ≤ suggestion_distance input k) known
      ⊎ (listed (nearest_known_field input known) known ≡ true)
        × (suggestion_distance input (nearest_known_field input known) < 3)
        × All
            (λ k.
              suggestion_distance input (nearest_known_field input known)
              ≤ suggestion_distance input k)
            known
unfolding nearest_known_field
nearest_known_field-least input known h =
    if_ind (Outcome (normalize_field (trim_space input)) [] 3 known)
      (length (normalize_field (trim_space input)) == 0) _ _ (λ e. absurd (ground arith))
      (λ _. nearest_in-Outcome (normalize_field (trim_space input)) [] 3 known)
