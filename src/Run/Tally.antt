-- ===== src/Run/Tally.antt =====
-- internal/analyzer/stats.go: what the counters of a run hold after any sequence of its calls.
use solidify.Base.{
  Bool-cases, Option-cases, length, keep, Text, text_eq, text_eq-eq, Map, lookup, lookup-insert,
  distinct, find_key, value_or, lookup-index_by, ℕ, ◌+◌, ◌≡◌, refl, ap, ◌∙◌, inl, inr, Bool, true,
  false, not, ◌&&◌, Option, none, some, List, [], ◌∷◌, map, arith,
}
use solidify.Config.Settings.{Config}
use solidify.Plan.{ExecutionPlan}
use solidify.Plan.Grouping.{group_name}
use solidify.Run.Statistics.{
  GroupExecutionStats, RunStats, fresh_group, new_run_stats, count_execution, count_in, execution,
}

-- The arguments of a call of `execution`.
pub record Call : Type 0 where
  pub group : Text
  pub cache_hit : Bool
  pub cache_used : Bool

abbrev pub call_all : List Call → Option RunStats → Option RunStats
call_all [] s = s
call_all (c ∷ calls) s = call_all calls (execution s c.group c.cache_hit c.cache_used)

-- The number of elements that pass the test.
abbrev pub count {ℓ} : {A : Type ℓ} → (A → Bool) → List A → ℕ
count p l = length (keep p l)

abbrev pub executed_in : Text → Call → Bool
executed_in k c = text_eq c.group k && not c.cache_hit

abbrev pub hit_in : Text → Call → Bool
hit_in k c = text_eq c.group k && (c.cache_used && c.cache_hit)

abbrev pub missed_in : Text → Call → Bool
missed_in k c = text_eq c.group k && (c.cache_used && not c.cache_hit)

abbrev pub tally : Text → List Call → GroupExecutionStats → GroupExecutionStats
tally k calls e = record e {
  executions = e.executions + count (executed_in k) calls;
  cache_hits = e.cache_hits + count (hit_in k) calls;
  cache_misses = e.cache_misses + count (missed_in k) calls;
}

abbrev pub tally_of : Text → List Call → Option GroupExecutionStats → Option GroupExecutionStats
tally_of k calls none = none
tally_of k calls (some e) = some (tally k calls e)

abbrev pub entry_of : Text → Option RunStats → Option GroupExecutionStats
entry_of k none = none
entry_of k (some s) = lookup k s.groups

tally-one :
    (k : Text) (c : Call) (e : GroupExecutionStats)
    → text_eq c.group k ≡ true
    → count_execution c.cache_hit c.cache_used e ≡ tally k (c ∷ []) e
tally-one k c e h = ground (arith, h)

tally-other :
    (k : Text) (c : Call) (e : GroupExecutionStats)
    → text_eq c.group k ≡ false
    → e ≡ tally k (c ∷ []) e
tally-other k c e h = ground (arith, h)

tally-cons :
    (k : Text) (c : Call) (calls : List Call) (e : GroupExecutionStats)
    → tally k calls (tally k (c ∷ []) e) ≡ tally k (c ∷ calls) e
tally-cons k c calls e = ground arith

count_in-other :
    (k : Text) (c : Call) (groups : Map GroupExecutionStats)
    → text_eq c.group k ≡ false
    → lookup k (count_in c.group c.cache_hit c.cache_used groups) ≡ lookup k groups
unfolding count_in
count_in-other k c groups h = elim (Option-cases (lookup c.group groups)) [
  | inl n ↦ ground (arith, n)
  | inr (e, n) ↦
      ground
        (arith, n, h, lookup-insert c.group k (count_execution c.cache_hit c.cache_used e) groups)
]

tally_of-other :
    (k : Text) (c : Call) (o : Option GroupExecutionStats)
    → text_eq c.group k ≡ false
    → o ≡ tally_of k (c ∷ []) o
tally_of-other k c none h = refl
tally_of-other k c (some e) h = ap some (tally-other k c e h)

tally_of-cons :
    (k : Text) (c : Call) (calls : List Call) (o : Option GroupExecutionStats)
    → tally_of k calls (tally_of k (c ∷ []) o) ≡ tally_of k (c ∷ calls) o
tally_of-cons k c calls none = refl
tally_of-cons k c calls (some e) = ap some (tally-cons k c calls e)

tally_of-nil : (k : Text) (o : Option GroupExecutionStats) → o ≡ tally_of k [] o
tally_of-nil k none = refl
tally_of-nil k (some e) = ground arith

tally_of-one :
    (k : Text) (c : Call) (groups : Map GroupExecutionStats)
    → lookup k (count_in c.group c.cache_hit c.cache_used groups)
      ≡ tally_of k (c ∷ []) (lookup k groups)
unfolding count_in
tally_of-one k c groups = elim (Bool-cases (text_eq c.group k)) [
  | inl e ↦
      let same : lookup c.group groups ≡ lookup k groups =
        ap (λ j. lookup j groups) (text_eq-eq c.group k e) in
      elim (Option-cases (lookup c.group groups)) [
        | inl n ↦ ground (arith, n, same)
        | inr (g, n) ↦ ground (
          arith,
          n,
          same,
          e,
          lookup-insert c.group k (count_execution c.cache_hit c.cache_used g) groups,
          tally-one k c g,
        )
      ]
  | inr e ↦ count_in-other k c groups e ∙ tally_of-other k c (lookup k groups) e
]

entry-call_all :
    (k : Text) (calls : List Call) (s : RunStats)
    → entry_of k (call_all calls (some s)) ≡ tally_of k calls (lookup k s.groups)
unfolding execution
entry-call_all k [] s = tally_of-nil k (lookup k s.groups)
entry-call_all k (c ∷ calls) s =
    entry-call_all k calls
      (record s { groups = count_in c.group c.cache_hit c.cache_used s.groups })
    ∙ (ap (tally_of k calls) (tally_of-one k c s.groups)
        ∙ tally_of-cons k c calls (lookup k s.groups))

-- The first group of the plan with the name, with its counters at zero.
abbrev pub fresh_entry : Text → ExecutionPlan → Option GroupExecutionStats
fresh_entry k plan = value_or fresh_group (find_key group_name k plan.groups) none

-- After any calls, in whatever order the workers make them, the entry of a plan's group has counted
-- the calls for it that missed the cache or ran without one, those that hit it and those that missed it, and
-- no entry stands under a name that is no group's of the plan.
pub execution-tally :
    (plan : ExecutionPlan) (cfg : Config) (k : Text) (calls : List Call)
    → distinct (map group_name plan.groups) ≡ true
    → entry_of k (call_all calls (some (new_run_stats plan cfg)))
      ≡ tally_of k calls (fresh_entry k plan)
unfolding new_run_stats lookup
execution-tally plan cfg k calls h =
    entry-call_all k calls (new_run_stats plan cfg)
    ∙ ap (tally_of k calls) (lookup-index_by group_name fresh_group k plan.groups [] h)
