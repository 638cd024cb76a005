-- ===== src/Plan/Grouping.antt =====
-- The loop of NewExecutionPlan, with its index from names to positions, adds each check to the group
-- of its name.
use solidify.Base.{
  if◌then◌else◌, Option-cases, is_some, length, keep, Text, text_eq, text_eq_iff, Map, lookup,
  insert, lookup-insert, flag, listed, distinct, distinct-snoc, ℕ, zero, suc, ◌≡◌, refl, ap, inl,
  inr, Bool, true, ◌||◌, Option, none, some, List, [], ◌∷◌, ◌++◌, map, arith,
}
use solidify.Ids.{CheckId}
use solidify.Registry.Index.{check_id}
use solidify.Registry.Check.{Check, Surface}
use solidify.Plan.Groups.{
  ExecutionGroup, PlanState, empty_state, append_check, open_group, is_planned, plan_check,
  build_groups,
}

abbrev pub group_name : ExecutionGroup → Text
group_name g = g.name

-- The group of a check that is alone in it.
abbrev pub single_group : Check → ExecutionGroup
single_group c = record { name = c.runner_group; scope = c.scope; checks = c.id ∷ [] }

-- A check joins the first group of its name, or opens one at the end.
unfoldable pub add_to_group : Check → List ExecutionGroup → List ExecutionGroup
add_to_group c [] = single_group c ∷ []
add_to_group c (g ∷ gs) =
    if text_eq g.name c.runner_group
    then record g { checks = g.checks ++ c.id ∷ [] } ∷ gs
    else g ∷ add_to_group c gs

unfoldable pub add_all : (Check → Bool) → List Check → List ExecutionGroup → List ExecutionGroup
add_all planned [] gs = gs
add_all planned (c ∷ cs) gs = add_all planned cs (if planned c then add_to_group c gs else gs)

position : Text → List Text → Option ℕ
position k [] = none
position k (j ∷ l) =
    if text_eq j k then some 0 else elim (position k l) [ none ↦ none | some i ↦ some (suc i) ]

or_position : Option ℕ → Option ℕ → Option ℕ
or_position none other = other
or_position (some i) other = some i

position-snoc :
    (k j : Text) (l : List Text)
    → position k (l ++ j ∷ [])
      ≡ or_position (position k l) (if text_eq j k then some (length l) else none)
unfolding position or_position
position-snoc k j [] = ground arith
position-snoc k j (i ∷ l) = ground (arith, position-snoc k j l)

-- The index tells where the group of each name stands.
abbrev IsIndexed : PlanState → Type 0
IsIndexed s = (k : Text) → lookup k s.group_index ≡ position k (map group_name s.groups)

append_check-add_to_group :
    (c : Check) (gs : List ExecutionGroup) (i : ℕ)
    → position c.runner_group (map group_name gs) ≡ some i
    → append_check i c.id gs ≡ add_to_group c gs
unfolding position append_check add_to_group
append_check-add_to_group c [] i h = ground arith
append_check-add_to_group c (g ∷ gs) zero h = ground arith
append_check-add_to_group c (g ∷ gs) (suc i) h = ground (arith, append_check-add_to_group c gs i)

append_check-new :
    (c : Check) (gs : List ExecutionGroup)
    → position c.runner_group (map group_name gs) ≡ none
    → append_check
        (length gs)
        c.id
        (gs ++ record { name = c.runner_group; scope = c.scope; checks = [] } ∷ [])
      ≡ add_to_group c gs
unfolding position append_check add_to_group
append_check-new c [] h = refl
append_check-new c (g ∷ gs) h = ground (arith, append_check-new c gs)

names-add_to_group :
    (c : Check) (gs : List ExecutionGroup)
    → map group_name (add_to_group c gs) ≡ (
        if is_some (position c.runner_group (map group_name gs))
        then map group_name gs
        else map group_name gs ++ c.runner_group ∷ [])
unfolding position add_to_group
names-add_to_group c [] = refl
names-add_to_group c (g ∷ gs) = ground (arith, names-add_to_group c gs)

position-listed : (k : Text) (l : List Text) → is_some (position k l) ≡ listed k l
unfolding position listed
position-listed k [] = refl
position-listed k (j ∷ l) = ground (arith, position-listed k l)

-- The names stay distinct.
pub distinct-add_to_group :
    (c : Check) (gs : List ExecutionGroup)
    → distinct (map group_name gs) ≡ true
    → distinct (map group_name (add_to_group c gs)) ≡ true
distinct-add_to_group c gs h = ground (
  arith,
  names-add_to_group c gs,
  position-listed c.runner_group (map group_name gs),
  distinct-snoc c.runner_group (map group_name gs),
)

plan_check-groups :
    (c : Check) (s : PlanState) → IsIndexed s → (plan_check c s).groups ≡ add_to_group c s.groups
unfolding plan_check open_group
plan_check-groups c s h = elim (Option-cases (position c.runner_group (map group_name s.groups))) [
  | inl e ↦ ground (arith, h c.runner_group, e, append_check-new c s.groups)
  | inr (i, e) ↦ ground (arith, h c.runner_group, e, append_check-add_to_group c s.groups i)
]

plan_check-index :
    (c : Check) (s : PlanState) (k : Text)
    → IsIndexed s
    → lookup k (plan_check c s).group_index ≡ (
        if is_some (position c.runner_group (map group_name s.groups))
        then lookup k s.group_index
        else if text_eq c.runner_group k
        then some (length s.groups)
        else lookup k s.group_index)
unfolding plan_check open_group
plan_check-index c s k h =
    ground (arith, h c.runner_group, lookup-insert c.runner_group k (length s.groups) s.group_index)

length-map_name : (gs : List ExecutionGroup) → length (map group_name gs) ≡ length gs
length-map_name [] = refl
length-map_name (g ∷ gs) = ap suc (length-map_name gs)

plan_check-IsIndexed : (c : Check) (s : PlanState) → IsIndexed s → IsIndexed (plan_check c s)
unfolding or_position
plan_check-IsIndexed c s h k = ground (
  arith,
  plan_check-index c s k h,
  plan_check-groups c s h,
  h k,
  names-add_to_group c s.groups,
  position-snoc k c.runner_group (map group_name s.groups),
  length-map_name s.groups,
  text_eq_iff c.runner_group k,
)

build_groups-IsIndexed :
    (selection : Map Bool) (surface : Surface) (cs : List Check) (s : PlanState)
    → IsIndexed s
    → (build_groups selection surface cs s).groups
      ≡ add_all (is_planned selection surface) cs s.groups
unfolding build_groups add_all
build_groups-IsIndexed selection surface [] s h = refl
build_groups-IsIndexed selection surface (c ∷ cs) s h = ground (
  arith,
  build_groups-IsIndexed selection surface cs (plan_check c s) (plan_check-IsIndexed c s h),
  build_groups-IsIndexed selection surface cs s h,
  plan_check-groups c s h,
)

-- The loop over a list of checks groups the planned ones.
pub build_groups-add_all :
    (selection : Map Bool) (surface : Surface) (cs : List Check)
    → (build_groups selection surface cs empty_state).groups
      ≡ add_all (is_planned selection surface) cs []
unfolding position lookup
build_groups-add_all selection surface cs =
    build_groups-IsIndexed selection surface cs empty_state (λ k. refl)

plan_check-selected :
    (c : Check) (s : PlanState) → (plan_check c s).selected ≡ insert c.id true s.selected
unfolding plan_check open_group
plan_check-selected c s = ground arith

-- The loop's map holds the planned checks.
pub build_groups-selected :
    (selection : Map Bool) (surface : Surface) (cs : List Check) (s : PlanState) (k : CheckId)
    → flag k (build_groups selection surface cs s).selected
      ≡ (listed k (map check_id (keep (is_planned selection surface) cs)) || flag k s.selected)
unfolding build_groups listed
build_groups-selected selection surface [] s k = refl
build_groups-selected selection surface (c ∷ cs) s k = ground (
  arith,
  build_groups-selected selection surface cs (plan_check c s) k,
  build_groups-selected selection surface cs s k,
  plan_check-selected c s,
  lookup-insert c.id k true s.selected,
)
