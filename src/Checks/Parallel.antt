-- ===== src/Checks/Parallel.antt =====
-- internal/analyzer/ocp_parallel.go: the groups of functions that look alike. The functions' shapes are
-- given, as their tokens come from Go's syntax trees. A bucket of the map is a filter of the functions,
-- and the candidates keep the order of their bands where Go ranges over a map.
use solidify.Base.{
  ltb, ◌==◌, if◌then◌else◌, length, keep, any, Text, text_eq, sort_by, ltb_ℤ, ℕ, ◌+◌, ◌-◌, ◌/◌,
  Bool, false, not, ◌&&◌, ◌||◌, Option, none, some, List, [], ◌∷◌, ◌++◌, map, pos,
}
use solidify.Config.Settings.{Config}
use solidify.Checks.Similarity.{similarity_percent}

pub record FunctionShape : Type 0 where
  pub name : Text
  pub shingles : List Text
  pub type_key : Text
  pub nodes : ℕ
  pub arity : ℕ
  pub band : ℕ

-- An index of the slice with the function there.
abbrev pub Entry : Type 0
Entry = ℕ × FunctionShape

abbrev pub numbered : ℕ → List FunctionShape → List Entry
numbered n [] = []
numbered n (f ∷ functions) = (n, f) ∷ numbered (n + 1) functions

-- The bucket of the arity and of the band `k - 2` steps above that of the function.
abbrev pub bucket : List Entry → FunctionShape → ℕ → List Entry
bucket entries f k = keep (λ e. (e.1.arity == f.arity) && (e.1.band + 2 == f.band + k)) entries

abbrev pub candidates : List Entry → FunctionShape → List Entry
candidates entries f =
    bucket entries f 0
    ++ (bucket entries f 1 ++ (bucket entries f 2 ++ (bucket entries f 3 ++ bucket entries f 4)))

-- How far the numbers of nodes are apart.
abbrev pub distance : ℕ → ℕ → ℕ
distance a b = (a - b) + (b - a)

-- The body of the loop over the candidates: does the second function join the first?
unfoldable pub joins : Config → Entry → Entry → Bool
joins cfg (i, f) (j, g) =
    if (j == i)
      || (text_eq f.type_key g.type_key || ltb (f.nodes / 5 + 1) (distance f.nodes g.nodes))
    then false
    else not
        (ltb_ℤ (pos (similarity_percent f.shingles g.shingles)) cfg.ocp_parallel_similarity_percent)

abbrev pub group_of : Config → List Entry → Entry → List Entry
group_of cfg entries e = e ∷ keep (joins cfg e) (candidates entries e.1)

pub record ParallelGroup : Type 0 where
  pub primary : FunctionShape
  pub related : List Text
  pub all_names : List Text
  pub similarity : ℕ

-- The finding of a sorted group. None is Go's panic: with one function there is no `group[1]`.
abbrev pub report : List Entry → Option ParallelGroup
report (p ∷ second ∷ rest) = some (record {
  primary = p.1;
  related = map (λ e. e.1.name) (keep (λ e. not (e.0 == p.0)) (p ∷ second ∷ rest));
  all_names = map (λ e. e.1.name) (p ∷ second ∷ rest);
  similarity = similarity_percent p.1.shingles second.1.shingles;
})
report _ = none

abbrev pub with_group :
    Option ParallelGroup → Option (List ParallelGroup) → Option (List ParallelGroup)
with_group (some g) (some groups) = some (g ∷ groups)
with_group _ _ = none

-- The loop over the functions, with the indexes that are used.
unfoldable pub emit_from : Config → List Entry → List ℕ → List Entry → Option (List ParallelGroup)
emit_from cfg entries used [] = some []
emit_from cfg entries used (e ∷ rest) =
    let group = group_of cfg entries e in
    let skipped =
      any (λ i. i == e.0) used || ltb_ℤ (pos (length group)) cfg.ocp_min_parallel_functions in
    let used' = if skipped then used else map (λ member. member.0) group ++ used in
    let groups = emit_from cfg entries used' rest in
    if skipped then groups else with_group (report (sort_by (λ member. member.1.name) group)) groups

unfoldable pub emit_ocp_parallel_implementations :
    Config → List FunctionShape → Option (List ParallelGroup)
emit_ocp_parallel_implementations cfg functions =
    emit_from cfg (numbered 0 functions) [] (numbered 0 functions)
