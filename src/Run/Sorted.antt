-- ===== src/Run/Sorted.antt =====
-- internal/analyzer/run.go: sortIssues, and why its result does not depend on the workers.
use mathlib.Core.List.Perm
use solidify.Base.{
  ltb, ◌==◌, ==_iff, Text, text_eq, text_eq_iff, text_lt, text_lt-total, text_lt-asymm,
  text_lt-neg_trans, sort_with, sort_with_perm, map-sort_with, lexicographic, lexicographic-IsOrder,
  IsOrder, Perm, ℕ, ◌<◌, ◌≡◌, refl, sym, ◌∙◌, Bool, List, map, arith,
}
use solidify.Issues.Issue.{Issue, issue_id}
use solidify.Run.Jobs.{CheckRunners, PackageJob}
use solidify.Run.Owners.{issue_less}
use solidify.Run.Pool.{Pool, Steps, start, IsFinished}
use solidify.Run.Delivered.{pool-perm}

unfoldable pub sort_issues : List Issue → List Issue
sort_issues issues = sort_with issue_less issues

-- What the comparison looks at: file, line, column, check and evidence.
abbrev pub Place : Type 0
Place = Text × (ℕ × (ℕ × (Text × Text)))

abbrev pub place : Issue → Place
place i = (i.pos.filename, (i.pos.line, (i.pos.column, (issue_id i, i.evidence))))

abbrev place_less : Place → Place → Bool
place_less =
    lexicographic text_eq text_lt
      (lexicographic ◌==◌ ltb (lexicographic ◌==◌ ltb (lexicographic text_eq text_lt text_lt)))

text_lt-IsOrder : IsOrder text_lt
text_lt-IsOrder = record {
  asymm = text_lt-asymm;
  between = λ s t u h k. ground (arith, h, k, text_lt-neg_trans s t u);
  total = text_lt-total;
}

ltb-IsOrder : IsOrder ltb
ltb-IsOrder = record {
  asymm = λ a b h. ground arith;
  between = λ a b c h k. ground arith;
  total = λ a b h k. ground arith;
}

place_less-IsOrder : IsOrder place_less
place_less-IsOrder = lexicographic-IsOrder text_eq text_lt _ text_eq_iff text_lt-IsOrder (
    lexicographic-IsOrder ◌==◌ ltb _ ==_iff ltb-IsOrder (
      lexicographic-IsOrder ◌==◌ ltb _ ==_iff ltb-IsOrder (
        lexicographic-IsOrder text_eq text_lt text_lt text_eq_iff text_lt-IsOrder text_lt-IsOrder)))

issue_less-place : (i j : Issue) → issue_less i j ≡ place_less (place i) (place j)
unfolding issue_less
issue_less-place i j = refl

Place_set : IsSet (List Place)
Place_set = hlevel

-- The same findings in two orders show the same places once sorted.
pub sort_issues-perm :
    {found other : List Issue}
    → Perm found other
    → map place (sort_issues found) ≡ map place (sort_issues other)
unfolding sort_issues
sort_issues-perm {found} {other} p =
    map-sort_with place issue_less place_less issue_less-place found
    ∙ (sort_with_perm place_less place_less-IsOrder Place_set (Perm.map place p)
        ∙ sym (map-sort_with place issue_less place_less issue_less-place other))

-- Two runs of the pool on the same jobs report the same sequence of places, checks and evidence after
-- sorting, however many workers each has, at least one, and however they take turns.
pub sort_issues-deterministic :
    (r : CheckRunners) (jobs : List PackageJob) {w v m n : ℕ} {p q : Pool}
    → 0 < w
    → 0 < v
    → Steps r w (start w jobs) p m
    → IsFinished w p
    → Steps r v (start v jobs) q n
    → IsFinished v q
    → map place (sort_issues p.all) ≡ map place (sort_issues q.all)
sort_issues-deterministic r jobs {w} {v} some_w some_v steps ended steps' ended' =
    sort_issues-perm (
      Perm.trans (pool-perm r w jobs (λ none. absurd (omega arith)) steps ended)
        (Perm.symm (pool-perm r v jobs (λ none. absurd (omega arith)) steps' ended')))
