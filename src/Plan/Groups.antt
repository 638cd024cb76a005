-- ===== src/Plan/Groups.antt =====
-- internal/analyzer/plan.go: the loop that groups the selected checks by their shared runner.
use solidify.Base.{
  if◌then◌else◌, length, Text, Map, lookup, insert, flag, ℕ, zero, suc, Bool, true, ◌&&◌, none,
  some, List, [], ◌∷◌, ◌++◌,
}
use solidify.Ids.{CheckId}
use solidify.Registry.Check.{Check, Scope, Surface, supports}

pub record ExecutionGroup : Type 0 where
  pub name : Text
  pub scope : Scope
  pub checks : List CheckId

-- The variables of the loop.
pub record PlanState : Type 0 where
  pub selected : Map Bool
  pub group_index : Map ℕ
  pub groups : List ExecutionGroup

abbrev pub empty_state : PlanState
empty_state = record { selected = []; group_index = []; groups = [] }

-- `groups[index].Checks = append(groups[index].Checks, id)`; an index out of range changes nothing.
unfoldable pub append_check : ℕ → CheckId → List ExecutionGroup → List ExecutionGroup
append_check index id [] = []
append_check zero id (g ∷ gs) = record g { checks = g.checks ++ id ∷ [] } ∷ gs
append_check (suc index) id (g ∷ gs) = g ∷ append_check index id gs

-- A new group is opened at the end where the runner group has none yet.
unfoldable pub open_group : Check → PlanState → PlanState × ℕ
open_group c s = elim (lookup c.runner_group s.group_index) [
  | some index ↦ (s, index)
  | none ↦
      let index = length s.groups in
      (
        record s {
          group_index = insert c.runner_group index s.group_index;
          groups = s.groups ++ record { name = c.runner_group; scope = c.scope; checks = [] } ∷ [];
        },
        index,
      )
]

abbrev pub is_planned : Map Bool → Surface → Check → Bool
is_planned selection surface c = flag c.id selection && supports c.surfaces surface

-- The body of the loop over the registry, past its `continue`.
unfoldable pub plan_check : Check → PlanState → PlanState
plan_check c s =
    let (s', index) = open_group c (record s { selected = insert c.id true s.selected }) in
    record s' { groups = append_check index c.id s'.groups }

unfoldable pub build_groups : Map Bool → Surface → List Check → PlanState → PlanState
build_groups selection surface [] s = s
build_groups selection surface (c ∷ cs) s =
    build_groups selection surface cs (if is_planned selection surface c then plan_check c s else s)
