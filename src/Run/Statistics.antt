-- ===== src/Run/Statistics.antt =====
-- internal/analyzer/stats.go: the counters of a run's groups. A nil *runStats is none. Its mutex is
-- held for the whole of a call, so calls by several workers are calls in some order. The plan's
-- identity, a digest for display, is left out.
use solidify.Base.{
  if◌then◌else◌, Text, text, Map, lookup, insert, index_by, ℕ, ◌+◌, Bool, not, ◌&&◌, Option, none,
  some, [],
}
use solidify.Registry.Check.{Scope, scope_package, scope_program}
use solidify.Plan.{ExecutionPlan}
use solidify.Plan.Groups.{ExecutionGroup}
use solidify.Plan.Grouping.{group_name}
use solidify.Config.Settings.{Config}

pub record GroupExecutionStats : Type 0 where
  pub name : Text
  pub scope : Text
  pub executions : ℕ
  pub cache_hits : ℕ
  pub cache_misses : ℕ

pub record RunStats : Type 0 where
  pub plan : ExecutionPlan
  pub config : Config
  pub groups : Map GroupExecutionStats

unfoldable pub scope_name : Scope → Text
scope_name scope_program = text "program"
scope_name scope_package = text "package"

abbrev pub fresh_group : ExecutionGroup → GroupExecutionStats
fresh_group g = record {
  name = g.name;
  scope = scope_name g.scope;
  executions = 0;
  cache_hits = 0;
  cache_misses = 0;
}

unfoldable pub new_run_stats : ExecutionPlan → Config → RunStats
new_run_stats plan cfg = record {
  plan = plan;
  config = cfg;
  groups = index_by group_name fresh_group plan.groups [];
}

-- What the call leaves in the group's entry.
abbrev pub count_execution : Bool → Bool → GroupExecutionStats → GroupExecutionStats
count_execution cache_hit cache_used e = record e {
  executions = if cache_hit then e.executions else e.executions + 1;
  cache_hits = if cache_used && cache_hit then e.cache_hits + 1 else e.cache_hits;
  cache_misses = if cache_used && not cache_hit then e.cache_misses + 1 else e.cache_misses;
}

-- An unknown group is passed over.
unfoldable pub count_in : Text → Bool → Bool → Map GroupExecutionStats → Map GroupExecutionStats
count_in group cache_hit cache_used groups = elim (lookup group groups) [
  | none ↦ groups
  | some entry ↦ insert group (count_execution cache_hit cache_used entry) groups
]

unfoldable pub execution : Option RunStats → Text → Bool → Bool → Option RunStats
execution none group cache_hit cache_used = none
execution (some s) group cache_hit cache_used =
    some (record s { groups = count_in group cache_hit cache_used s.groups })
