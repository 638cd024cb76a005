-- ===== src/Checks/Grouped.antt =====
-- internal/analyzer/ocp_parallel.go: what is reported about functions that look alike.
use solidify.Base.{
  ◌==◌, ltb→lt, Bool-cases, length, any, All, Text, insert_sorted, sort_by, ◌≤ℤ◌, ltb_ℤ, ltb_ℤ-le,
  ℤ, ℕ, suc, ◌<◌, ◌≡◌, refl, sym, ap, ◌∙◌, subst, inl, inr, true, ◌||◌, some, List, [], ◌∷◌, ◌++◌,
  map, arith, pos,
}
use solidify.Config.Settings.{Config}
use solidify.Checks.Parallel.{
  FunctionShape, Entry, numbered, ParallelGroup, group_of, report, emit_from,
  emit_ocp_parallel_implementations,
}

length-insert_sorted {ℓ} :
    {A : Type ℓ} (key : A → Text) (a : A) (l : List A)
    → length (insert_sorted key a l) ≡ suc (length l)
unfolding insert_sorted
length-insert_sorted key a [] = refl
length-insert_sorted key a (b ∷ l) = ground (arith, length-insert_sorted key a l)

length-sort_by {ℓ} : {A : Type ℓ} (key : A → Text) (l : List A) → length (sort_by key l) ≡ length l
unfolding sort_by
length-sort_by key [] = refl
length-sort_by key (a ∷ l) =
    length-insert_sorted key a (sort_by key l) ∙ ap suc (length-sort_by key l)

length-names : (l : List Entry) → length (map (λ e. e.1.name) l) ≡ length l
length-names [] = refl
length-names (e ∷ l) = ap suc (length-names l)

-- A group of two or more is reported with a name for each.
report-names :
    (l : List Entry)
    → 1 < length l
    → (g : ParallelGroup) × (report l ≡ some g) × (length g.all_names ≡ length l)
report-names [] h = absurd (omega arith)
report-names (p ∷ []) h = absurd (omega arith)
report-names (p ∷ second ∷ rest) h = (_, refl, length-names (p ∷ second ∷ rest))

more_than_one : (m : ℤ) (n : ℕ) → ltb_ℤ (pos 1) m ≡ true → m ≤ℤ pos n → 1 < n
more_than_one m n h k = ground (arith, ltb→lt _ _ h)

abbrev pub IsLarge : Config → ParallelGroup → Type 0
IsLarge cfg g = cfg.ocp_min_parallel_functions ≤ℤ pos (length g.all_names)

module _ (cfg : Config) (several : ltb_ℤ (pos 1) cfg.ocp_min_parallel_functions ≡ true) where
  emit_from-reports :
      (entries : List Entry) (used : List ℕ) (rest : List Entry)
      → (groups : List ParallelGroup) × (emit_from cfg entries used rest ≡ some groups)
        × All (IsLarge cfg) groups
  unfolding emit_from
  emit_from-reports entries used [] = ([], refl, tt)
  emit_from-reports entries used (e ∷ rest) =
      let group = group_of cfg entries e in
      let skipped =
        any (λ i. i == e.0) used || ltb_ℤ (pos (length group)) cfg.ocp_min_parallel_functions in
      elim (Bool-cases skipped) [
        | inl s ↦
            let (groups, same, large) = emit_from-reports entries used rest in
            (groups, ground (arith, s, same), large)
        | inr s ↦
            let (groups, same, large) =
              emit_from-reports entries (map (λ member. member.0) group ++ used) rest in
            let enough : cfg.ocp_min_parallel_functions ≤ℤ pos (length group) =
              ltb_ℤ-le (pos (length group)) cfg.ocp_min_parallel_functions (ground (arith, s)) in
            let two : 1 < length group = more_than_one _ _ several enough in
            let sorted = length-sort_by (λ member. member.1.name) group in
            let (g, shown, names) =
              report-names (sort_by (λ member. member.1.name) group) (omega (arith, two, sorted)) in
            (
              g ∷ groups,
              ground (arith, s, same, shown),
              (
                subst (λ n. cfg.ocp_min_parallel_functions ≤ℤ pos n) (sym (names ∙ sorted)) enough,
                large,
              ),
            )
      ]

  -- Where at least two functions make a group, the search never panics, and each group that it
  -- reports names at least as many functions as the configuration asks for.
  pub emit_ocp_parallel_implementations-reports :
      (functions : List FunctionShape)
      → (groups : List ParallelGroup) × (emit_ocp_parallel_implementations cfg functions
          ≡ some groups)
        × All (IsLarge cfg) groups
  unfolding emit_ocp_parallel_implementations
  emit_ocp_parallel_implementations-reports functions =
      emit_from-reports (numbered 0 functions) [] (numbered 0 functions)
