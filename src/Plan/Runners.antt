-- ===== src/Plan/Runners.antt =====
-- internal/analyzer/plan.go: the runner that a group's leader stores.
use solidify.Base.{
  if◌then◌else◌, is_some, all, Text, text, text_eq, ◌≡◌, refl, true, not, Option, none, some, List,
  [], ◌∷◌, ◌++◌,
}
use solidify.Ids.{CheckId}
use solidify.Registry.Check.{Check, Scope, scope_package, scope_program, Runner}
use solidify.Registry.Table.{check_registry}
use solidify.Plan.Groups.{ExecutionGroup}

-- The runner that a check stores for a scope.
abbrev pub runner_of : Scope → Check → Option Runner
runner_of scope_package c = c.run_package
runner_of scope_program c = c.run_program

-- The loop over the registry.
unfoldable pub runner_in : List Check → Text → Scope → Option Check
runner_in [] name scope = none
runner_in (c ∷ cs) name scope =
    let rest = runner_in cs name scope in
    if not (text_eq c.runner_group name)
    then rest
    else if is_some (runner_of scope c)
    then some c
    else rest

unfoldable pub runner_for_group : ExecutionGroup → Option Check
runner_for_group group = runner_in check_registry group.name group.scope

unfoldable pub group_cache_id : ExecutionGroup → CheckId
group_cache_id group = text "runner-group/" ++ group.name

-- Each registered check's group has a leader that stores a runner for the check's scope.
pub runners_cover :
    all (λ c. is_some (runner_in check_registry c.runner_group c.scope)) check_registry ≡ true
unfolding runner_in check_registry text_eq
runners_cover = refl
