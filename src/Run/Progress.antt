-- ===== src/Run/Progress.antt =====
-- internal/analyzer/run.go: executePackageJobs neither blocks for good nor goes on for good.
use solidify.Base.{
  ltb, if◌then◌else◌, ltb→lt, ltb→le, Bool-cases, length, length-append, all, ℕ, zero, suc, ◌+◌,
  ◌*◌, ◌≤◌, ◌<◌, ◌≡◌, ap, ◌⊎◌, inl, inr, Bool, true, false, List, [], ◌∷◌, arith,
}
use solidify.Issues.Issue.{Issue}
use solidify.Run.Jobs.{CheckRunners, PackageJob}
use solidify.Run.Pool.{
  JobResult, Pool, pool, Step, Steps, take, close, leave, send, send_done, receive, stay, next,
  start, IsFinished, worker_count,
}
use solidify.Run.Accounts.{Inv, start-Inv, Steps-Inv, at_work, finished-empty, worker_count_zero}

-- The steps that are left: three for a job, to take it, to send its result and to receive that; three for a
-- worker, to leave, to send that it is done and to receive that; and the closing of the channel.
abbrev left : Pool → ℕ
left p =
    3 * length p.queue
    + (if p.closed then 0 else 1)
    + 3 * p.idle
    + 5 * length p.busy
    + 2 * p.leaving
    + length p.results

Step-left :
    {r : CheckRunners} {workers : ℕ} {p q : Pool} → Step r workers p q → left p ≡ suc (left q)
Step-left (take job queue c i busy l results f all) = omega arith
Step-left (close i busy l results f all) = omega arith
Step-left (leave queue i busy l results f all) = omega arith
Step-left (send queue c i before job after l results f all room) = omega (
  arith,
  length-append before (job ∷ after),
  length-append before after,
  length-append results (_ ∷ []),
)
Step-left (send_done queue c i busy l results f all room) =
    omega (arith, length-append results (_ ∷ []))
Step-left (receive queue c i busy l result results f all more) = omega arith

Steps-left :
    {r : CheckRunners} {workers n : ℕ} {p q : Pool} → Steps r workers p q n → left p ≡ n + left q
Steps-left stay = omega arith
Steps-left (next s rest) = omega (arith, Step-left s, Steps-left rest)

module _ (r : CheckRunners) {workers jobs : ℕ} where
  -- While the caller waits for a worker, something can happen.
  move :
      (queue : List PackageJob) (c : Bool) (i : ℕ) (busy : List PackageJob) (l : ℕ)
      (results : List JobResult) (f : ℕ) (all : List Issue)
      → f < workers
      → Inv workers jobs (pool queue c i busy l results f all)
      → (q : Pool) × Step r workers (pool queue c i busy l results f all) q
  move queue c i busy l (result ∷ results) f all more h =
      (_, receive queue c i busy l result results f all more)
  move queue c i (job ∷ busy) l [] f all more h =
      (_, send queue c i [] job busy l [] f all (omega arith))
  move queue c i [] (suc l) [] f all more h = (_, send_done queue c i [] l [] f all (omega arith))
  move queue c zero [] zero [] f all more h = absurd (omega (arith, h.counted))
  move queue true (suc i) [] zero [] f all more h = (_, leave queue i [] zero [] f all)
  move [] false i [] zero [] f all more h = (_, close i [] zero [] f all)
  move (job ∷ queue) false (suc i) [] zero [] f all more h =
      (_, take job queue false i [] zero [] f all)

  progress :
      {p : Pool} → Inv workers jobs p → IsFinished workers p ⊎ ((q : Pool) × Step r workers p q)
  progress {p} h = elim (Bool-cases (ltb p.finished workers)) [
    | inl e ↦
        inr (
          move p.queue p.closed p.idle p.busy p.leaving p.results p.finished p.all (ltb→lt _ _ e) h)
    | inr e ↦ inl (omega (arith, h.counted, ltb→le _ _ e))
  ]

-- A finished pool has no step left.
finished-left :
    {workers jobs : ℕ} {p : Pool}
    → 0 < workers
    → Inv workers jobs p
    → IsFinished workers p
    → left p ≡ 0
finished-left {p = p} some_worker h end =
    let (results, busy, queue) = finished-empty h end (λ none. absurd (omega arith)) in
    let closed : p.closed ≡ true = ground (arith, h.none_left, end, some_worker) in
    let still : at_work p ≡ 0 = omega (arith, h.counted, end) in
    ground (
      arith,
      closed,
      still,
      ap (λ l. length l) results,
      ap (λ l. length l) busy,
      ap (λ l. length l) queue,
    )

-- With any number of processors and a job at all, no run of the pool blocks or goes on for good: in
-- every state that it reaches it has finished, after exactly three steps for each job and each
-- worker and one more, or it can make a step, and no run is longer.
pub execute_package_jobs-finishes :
    (r : CheckRunners) (processors : ℕ) (jobs : List PackageJob) {p : Pool} {n : ℕ}
    → 0 < length jobs
    → Steps r (worker_count processors jobs) (start (worker_count processors jobs) jobs) p n
    → (n ≤ 3 * length jobs + 3 * worker_count processors jobs + 1)
      × (IsFinished (worker_count processors jobs) p
            × (n ≡ 3 * length jobs + 3 * worker_count processors jobs + 1)
          ⊎ ((q : Pool) × Step r (worker_count processors jobs) p q))
execute_package_jobs-finishes r processors jobs {p} {n} some_job steps =
    let workers = worker_count processors jobs in
    let some_worker : 0 < workers = ground (arith, worker_count_zero processors jobs, some_job) in
    let h = Steps-Inv steps (start-Inv workers jobs) in
    let ahead = Steps-left steps in
    (
      omega (arith, ahead),
      elim (progress r h) [
        | inl end ↦ inl (end, omega (arith, ahead, finished-left some_worker h end))
        | inr s ↦ inr s
      ],
    )
