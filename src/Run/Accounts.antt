-- ===== src/Run/Accounts.antt =====
-- internal/analyzer/run.go: what holds of the workers of executePackageJobs at every step.
use solidify.Base.{
  ltb, ◌==◌, if◌then◌else◌, length, length-append, all, ℕ, ◌+◌, ◌≤◌, ◌<◌, ◌≡◌, refl, subst, true,
  not, ◌||◌, List, [], ◌∷◌, ◌++◌, arith,
}
use solidify.Run.Jobs.{CheckRunners, PackageJob, job_issues}
use solidify.Run.Pool.{
  JobResult, found, done_result, Pool, Step, Steps, take, close, leave, send, send_done, receive,
  stay, next, start, IsFinished, worker_count,
}

-- The workers that the buffer says are done.
abbrev pub dones : List JobResult → ℕ
dones [] = 0
dones (x ∷ results) = (if x.done then 1 else 0) + dones results

dones-append : (l m : List JobResult) → dones (l ++ m) ≡ dones l + dones m
dones-append [] m = omega arith
dones-append (x ∷ l) m = omega (arith, dones-append l m)

-- Nothing found stands in the buffer for good: some worker, of the n that are at work, or of those that
-- the buffer says are done behind it, is still to be received.
abbrev pub IsAwaited : ℕ → List JobResult → Type 0
IsAwaited n [] = Unit {0}
IsAwaited n (x ∷ results) = ((x.done || ltb 0 (n + dones results)) ≡ true) × IsAwaited n results

IsAwaited-some : (n : ℕ) (l : List JobResult) → 0 < n → IsAwaited n l
IsAwaited-some n [] h = tt
IsAwaited-some n (x ∷ l) h = (ground arith, IsAwaited-some n l h)

IsAwaited-done : (n : ℕ) (l : List JobResult) → IsAwaited n (l ++ done_result ∷ [])
IsAwaited-done n [] = (refl, tt)
IsAwaited-done n (x ∷ l) = (ground (arith, dones-append l (done_result ∷ [])), IsAwaited-done n l)

pub IsAwaited-none : (l : List JobResult) → IsAwaited 0 l → dones l ≡ 0 → l ≡ []
IsAwaited-none [] h e = refl
IsAwaited-none (x ∷ l) h e = absurd (ground (arith, h.0, e))

-- The workers that have not sent that they are done.
abbrev pub at_work : Pool → ℕ
at_work p = p.idle + length p.busy + p.leaving

-- Every worker is accounted for, nobody leaves before the channel is closed, it is closed when the jobs
-- are fed, and what was found is received before the last worker is.
pub record Inv (workers jobs : ℕ) (p : Pool) : Type 0 where
  pub counted : at_work p + dones p.results + p.finished ≡ workers
  pub none_left : (p.closed || (p.leaving + dones p.results + p.finished == 0)) ≡ true
  pub fed : (not p.closed || (length p.queue == 0)) ≡ true
  pub queued : length p.queue ≤ jobs
  pub awaited : IsAwaited (at_work p) p.results

Step-Inv :
    {r : CheckRunners} {workers jobs : ℕ} {p q : Pool}
    → Step r workers p q
    → Inv workers jobs p
    → Inv workers jobs q
Step-Inv (take job queue c i busy l results f all) h = record {
  counted = omega (arith, h.counted);
  none_left = h.none_left;
  fed = ground (arith, h.fed);
  queued = omega (arith, h.queued);
  awaited = subst (λ n. IsAwaited n results) (omega arith) h.awaited;
}
Step-Inv (close i busy l results f all) h = record {
  counted = h.counted;
  none_left = refl;
  fed = refl;
  queued = h.queued;
  awaited = h.awaited;
}
Step-Inv (leave queue i busy l results f all) h = record {
  counted = omega (arith, h.counted);
  none_left = refl;
  fed = h.fed;
  queued = h.queued;
  awaited = subst (λ n. IsAwaited n results) (omega arith) h.awaited;
}
Step-Inv {r} (send queue c i before job after l results f all room) h = record {
  counted = omega (
    arith,
    h.counted,
    dones-append results (found (job_issues r job) ∷ []),
    length-append before (job ∷ after),
    length-append before after,
  );
  none_left = ground (arith, h.none_left, dones-append results (found (job_issues r job) ∷ []));
  fed = h.fed;
  queued = h.queued;
  awaited = IsAwaited-some _ _ (omega arith);
}
Step-Inv (send_done queue c i busy l results f all room) h = record {
  counted = omega (arith, h.counted, dones-append results (done_result ∷ []));
  none_left = ground (arith, h.none_left, dones-append results (done_result ∷ []));
  fed = h.fed;
  queued = h.queued;
  awaited = IsAwaited-done _ results;
}
Step-Inv (receive queue c i busy l result results f all more) h = record {
  counted = ground (arith, h.counted);
  none_left = ground (arith, h.none_left);
  fed = h.fed;
  queued = h.queued;
  awaited = h.awaited.1;
}

pub start-Inv :
    (workers : ℕ) (jobs : List PackageJob) → Inv workers (length jobs) (start workers jobs)
start-Inv workers jobs = record {
  counted = omega arith;
  none_left = refl;
  fed = refl;
  queued = omega arith;
  awaited = tt;
}

pub Steps-Inv :
    {r : CheckRunners} {workers jobs n : ℕ} {p q : Pool}
    → Steps r workers p q n
    → Inv workers jobs p
    → Inv workers jobs q
Steps-Inv stay h = h
Steps-Inv (next s rest) h = Steps-Inv rest (Step-Inv s h)

length-zero {ℓ} : {A : Type ℓ} (l : List A) → length l ≡ 0 → l ≡ []
length-zero [] h = refl
length-zero (a ∷ l) h = absurd (omega arith)

-- When the caller stops, nothing is left behind: in the buffer, with a worker, or with the feeder.
pub finished-empty :
    {workers jobs : ℕ} {p : Pool}
    → Inv workers jobs p
    → IsFinished workers p
    → (workers ≡ 0 → jobs ≡ 0)
    → (p.results ≡ []) × (p.busy ≡ []) × (p.queue ≡ [])
finished-empty {workers} {jobs} {p} h end some_worker =
    let still : at_work p ≡ 0 = omega (arith, h.counted, end) in
    let awaited : IsAwaited 0 p.results = subst (λ n. IsAwaited n p.results) still h.awaited in
    let closed : length p.queue ≡ 0 =
      ground (arith, h.none_left, h.fed, h.queued, end, some_worker) in
    (
      IsAwaited-none p.results awaited (omega (arith, h.counted, end)),
      length-zero p.busy (omega (arith, still)),
      length-zero p.queue closed,
    )

-- There is a worker where there is a job.
pub worker_count_zero :
    (processors : ℕ) (jobs : List PackageJob) → worker_count processors jobs ≡ 0 → length jobs ≡ 0
unfolding worker_count
worker_count_zero processors jobs h = ground arith
