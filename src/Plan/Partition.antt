-- ===== src/Plan/Partition.antt =====
-- What the groups of a plan are: a partition of the planned checks by runner group.
use solidify.Base.{
  if◌then◌else◌, Bool-cases, is_some, ||-false, keep, All, all-All, Text, text_eq, text_eq_iff, Map,
  lookup, flag, listed, distinct, ◌≡◌, refl, sym, ap, ◌∙◌, subst, ◌≢◌, inl, inr, Bool, true, ◌&&◌,
  List, [], ◌∷◌, ◌++◌, map, append-nil, append_assoc, arith, ok,
}
use solidify.Ids.{CheckId}
use solidify.Registry.Check.{supports}
use solidify.Plan.{
  includes, PlanConfig, ExecutionPlan, resolve_surface, new_execution_plan, includes,
}
use solidify.Plan.Groups.{ExecutionGroup, empty_state, is_planned, build_groups}
use solidify.Registry.Check.{Check, Surface, supports}
use solidify.Registry.Table.{check_registry}
use solidify.Registry.Selection.{resolve_check_selection}
use solidify.Registry.Index.{check_id}
use solidify.Plan.Runners.{runner_in, runner_for_group, runners_cover}
use solidify.Plan.Grouping.{
  build_groups-selected, build_groups-selected, group_name, single_group, add_to_group, add_all,
  build_groups-add_all, build_groups-selected, distinct-add_to_group,
}

-- The checks of the first group with a name.
unfoldable pub checks_named : Text → List ExecutionGroup → List CheckId
checks_named name [] = []
checks_named name (g ∷ gs) = if text_eq g.name name then g.checks else checks_named name gs

checks_named-add_to_group :
    (name : Text) (c : Check) (gs : List ExecutionGroup)
    → checks_named name (add_to_group c gs)
      ≡ checks_named name gs ++ (if text_eq c.runner_group name then c.id ∷ [] else [])
unfolding checks_named add_to_group
checks_named-add_to_group name c [] = ground arith
checks_named-add_to_group name c (g ∷ gs) = ground (
  arith,
  checks_named-add_to_group name c gs,
  text_eq_iff g.name name,
  text_eq_iff c.runner_group name,
  text_eq_iff g.name c.runner_group,
  append-nil g.checks,
  append-nil (checks_named name gs),
)

abbrev in_group : (Check → Bool) → Text → Check → Bool
in_group planned name c = planned c && text_eq c.runner_group name

checks_named-add_all :
    (name : Text) (planned : Check → Bool) (cs : List Check) (gs : List ExecutionGroup)
    → checks_named name (add_all planned cs gs)
      ≡ checks_named name gs ++ map check_id (keep (in_group planned name) cs)
unfolding add_all
checks_named-add_all name planned [] gs = sym (append-nil _)
checks_named-add_all name planned (c ∷ cs) gs = ground (
  arith,
  checks_named-add_all name planned cs (add_to_group c gs),
  checks_named-add_all name planned cs gs,
  checks_named-add_to_group name c gs,
  append_assoc (checks_named name gs) (c.id ∷ []) (map check_id (keep (in_group planned name) cs)),
  append-nil (checks_named name gs),
)

-- A property of groups that depends on the name and the scope alone, and that the check's own group
-- has, is kept when the check is added.
All-add_to_group :
    (P : ExecutionGroup → Type 0) (c : Check) (gs : List ExecutionGroup)
    → P (single_group c)
    → ((g : ExecutionGroup) → P g → P (record g { checks = g.checks ++ c.id ∷ [] }))
    → All P gs
    → All P (add_to_group c gs)
unfolding add_to_group
All-add_to_group P c [] new grow h = (new, tt)
All-add_to_group P c (g ∷ gs) new grow h = elim (Bool-cases (text_eq g.name c.runner_group)) [
  | inl e ↦ rw e (grow g h.0, h.1)
  | inr e ↦ rw e (h.0, All-add_to_group P c gs new grow h.1)
]

keep-in_group :
    (planned : Check → Bool) (name : Text) (cs : List Check)
    → keep (in_group planned name) cs ≡ keep (λ c. text_eq c.runner_group name) (keep planned cs)
keep-in_group planned name [] = refl
keep-in_group planned name (c ∷ cs) = ground (arith, keep-in_group planned name cs)

module _ (planned : Check → Bool) where
  distinct-add_all :
      (cs : List Check) (gs : List ExecutionGroup)
      → distinct (map group_name gs) ≡ true
      → distinct (map group_name (add_all planned cs gs)) ≡ true
  unfolding add_all
  distinct-add_all [] gs h = h
  distinct-add_all (c ∷ cs) gs h = elim (Bool-cases (planned c)) [
    | inl e ↦ rw e (distinct-add_all cs (add_to_group c gs) (distinct-add_to_group c gs h))
    | inr e ↦ rw e (distinct-add_all cs gs h)
  ]

  All-add_all :
      (P : ExecutionGroup → Type 0) (cs : List Check) (gs : List ExecutionGroup)
      → ((c : Check) (g : ExecutionGroup) → P g → P (record g { checks = g.checks ++ c.id ∷ [] }))
      → All (λ c. P (single_group c)) cs
      → All P gs
      → All P (add_all planned cs gs)
  unfolding add_all
  All-add_all P [] gs grow new h = h
  All-add_all P (c ∷ cs) gs grow new h = elim (Bool-cases (planned c)) [
    | inl e ↦
        rw e (
          All-add_all P cs (add_to_group c gs) grow new.1
            (All-add_to_group P c gs new.0 (grow c) h))
    | inr e ↦ rw e (All-add_all P cs gs grow new.1 h)
  ]

snoc-ne-nil {ℓ} : {A : Type ℓ} (l : List A) (a : A) → l ++ a ∷ [] ≢ []
snoc-ne-nil [] a = λ e. cc
snoc-ne-nil (b ∷ l) a = λ e. cc

-- A group that has work and a runner to do it.
abbrev pub IsRunnable : ExecutionGroup → Type 0
IsRunnable g = (g.checks ≢ []) × (is_some (runner_for_group g) ≡ true)

single_groups-IsRunnable :
    (cs : List Check)
    → All (λ c. is_some (runner_in check_registry c.runner_group c.scope) ≡ true) cs
    → All (λ c. IsRunnable (single_group c)) cs
unfolding runner_for_group
single_groups-IsRunnable [] h = tt
single_groups-IsRunnable (c ∷ cs) h = (((λ e. cc), h.0), single_groups-IsRunnable cs h.1)

-- The inversion of a successful planning.
new_execution_plan-inv :
    (cfg : PlanConfig) (rules : Map Bool) (surface : Surface) {plan : ExecutionPlan}
    → new_execution_plan cfg rules surface ≡ ok plan
    → (selection : Map Bool) × (resolve_check_selection cfg.profile rules cfg.enabled_checks
          cfg.disabled_checks
        ≡ ok selection)
      × (plan.groups
          ≡ (build_groups selection (resolve_surface surface) check_registry empty_state).groups)
      × (plan.selected
          ≡ (build_groups selection (resolve_surface surface) check_registry empty_state).selected)
unfolding new_execution_plan
new_execution_plan-inv cfg rules surface {plan} h = ground arith

-- In a plan no two groups share a name, and every group has checks and a registered runner for its
-- scope, so no planned check is dropped for want of a runner.
pub new_execution_plan-IsRunnable :
    (cfg : PlanConfig) (rules : Map Bool) (surface : Surface) {plan : ExecutionPlan}
    → new_execution_plan cfg rules surface ≡ ok plan
    → (distinct (map group_name plan.groups) ≡ true) × All IsRunnable plan.groups
unfolding distinct runner_for_group
new_execution_plan-IsRunnable cfg rules surface {plan} h =
    let (selection, _, e, _) = new_execution_plan-inv cfg rules surface h in
    let planned = is_planned selection (resolve_surface surface) in
    subst (λ gs. (distinct (map group_name gs) ≡ true) × All IsRunnable gs)
      (sym (e ∙ build_groups-add_all selection (resolve_surface surface) check_registry))
      (
        distinct-add_all planned check_registry [] refl,
        All-add_all planned IsRunnable check_registry [] (λ c g r. (snoc-ne-nil g.checks c.id, r.1))
            (single_groups-IsRunnable check_registry (
              all-All (λ c. is_some (runner_in check_registry c.runner_group c.scope))
                check_registry runners_cover))
            tt,
      )

-- The checks that a selection gives to an integration: selected ones that it supports.
abbrev pub planned_checks : Map Bool → Surface → List Check
planned_checks selection surface =
    keep (λ c. flag c.id selection && supports c.surfaces surface) check_registry

-- A plan, for the selection that its settings resolve to, includes exactly the selected checks that
-- its surface supports (the command line's, if none is named), and the group of each name holds
-- those of them that name it as their runner group, in the order of the registry.
pub new_execution_plan-groups :
    (cfg : PlanConfig) (rules : Map Bool) (surface : Surface) {plan : ExecutionPlan}
    {selection : Map Bool} (id : CheckId) (name : Text)
    → new_execution_plan cfg rules surface ≡ ok plan
    → resolve_check_selection cfg.profile rules cfg.enabled_checks cfg.disabled_checks
      ≡ ok selection
    → (includes plan id
        ≡ listed id (map check_id (planned_checks selection (resolve_surface surface))))
      × (checks_named name plan.groups
          ≡ map check_id (
              keep
                (λ c. text_eq c.runner_group name)
                (planned_checks selection (resolve_surface surface))))
unfolding includes lookup checks_named
new_execution_plan-groups cfg rules surface {plan} {selection} id name h r =
    let (found, r', eg, es) = new_execution_plan-inv cfg rules surface h in
    let same : found ≡ selection = cc in
    let shown = resolve_surface surface in
    let es' =
      subst (λ x. plan.selected ≡ (build_groups x shown check_registry empty_state).selected) same
        es in
    let eg' =
      subst (λ x. plan.groups ≡ (build_groups x shown check_registry empty_state).groups) same eg in
    (
      ap (flag id) es'
          ∙ build_groups-selected selection shown check_registry empty_state id
          ∙ ||-false (listed id (map check_id (planned_checks selection shown))),
      ap (checks_named name) (eg' ∙ build_groups-add_all selection shown check_registry)
          ∙ checks_named-add_all name (is_planned selection shown) check_registry []
          ∙ ap (map check_id) (keep-in_group (is_planned selection shown) name check_registry),
    )
