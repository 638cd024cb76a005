-- ===== src/Run/Pool.antt =====
-- internal/analyzer/run.go: executePackageJobs as a relation of steps. One goroutine feeds the jobs into
-- an unbuffered channel and closes it, the workers take them and send results into a channel that
-- holds as many as there are workers, and the caller receives until every worker has said it is done.
use solidify.Base.{
  ltb, if◌then◌else◌, length, ℕ, suc, ◌<◌, ◌≡◌, Bool, true, false, List, [], ◌∷◌, ◌++◌,
}
use solidify.Issues.Issue.{Issue}
use solidify.Run.Jobs.{CheckRunners, PackageJob, job_issues}

pub record JobResult : Type 0 where
  pub issues : List Issue
  pub done : Bool

abbrev pub found : List Issue → JobResult
found issues = record { issues = issues; done = false }

abbrev pub done_result : JobResult
done_result = record { issues = []; done = true }

-- The jobs still to be fed and whether `jobCh` is closed; the workers that wait for a job, those that run
-- one, and those that have left their loop; the buffer of `resultCh`; and what the caller has received.
pub record Pool : Type 0 where
  pub queue : List PackageJob
  pub closed : Bool
  pub idle : ℕ
  pub busy : List PackageJob
  pub leaving : ℕ
  pub results : List JobResult
  pub finished : ℕ
  pub all : List Issue

abbrev pub pool :
    List PackageJob → Bool → ℕ → List PackageJob → ℕ → List JobResult → ℕ → List Issue → Pool
pool queue closed idle busy leaving results finished all = record {
  queue = queue;
  closed = closed;
  idle = idle;
  busy = busy;
  leaving = leaving;
  results = results;
  finished = finished;
  all = all;
}

-- The body of the caller's loop.
abbrev pub count_done : JobResult → ℕ → ℕ
count_done result finished = if result.done then suc finished else finished

abbrev pub add_issues : JobResult → List Issue → List Issue
add_issues result all = if result.done then all else all ++ result.issues

pub data Step (r : CheckRunners) (workers : ℕ) : Pool → Pool → Type 0 where
  -- The feeder hands a job to a waiting worker.
  take :
      (job : PackageJob) (queue : List PackageJob) (c : Bool) (i : ℕ) (busy : List PackageJob)
      (l : ℕ) (results : List JobResult) (f : ℕ) (all : List Issue)
      → Step r workers
          (pool (job ∷ queue) c (suc i) busy l results f all)
          (pool queue c i (job ∷ busy) l results f all)
  -- The feeder has no job left.
  close :
      (i : ℕ) (busy : List PackageJob) (l : ℕ) (results : List JobResult) (f : ℕ) (all : List Issue)
      → Step r workers (pool [] false i busy l results f all) (pool [] true i busy l results f all)
  -- A waiting worker finds the channel closed.
  leave :
      (queue : List PackageJob) (i : ℕ) (busy : List PackageJob) (l : ℕ) (results : List JobResult)
      (f : ℕ) (all : List Issue)
      → Step r workers
          (pool queue true (suc i) busy l results f all)
          (pool queue true i busy (suc l) results f all)
  -- A busy worker, whichever it is, sends what its job found, if the buffer has room.
  send :
      (queue : List PackageJob) (c : Bool) (i : ℕ) (before : List PackageJob) (job : PackageJob)
      (after : List PackageJob) (l : ℕ) (results : List JobResult) (f : ℕ) (all : List Issue)
      → length results < workers
      → Step r workers (pool queue c i (before ++ (job ∷ after)) l results f all) (
          pool queue c (suc i) (before ++ after) l (results ++ found (job_issues r job) ∷ []) f all)
  -- A worker that has left its loop sends that it is done.
  send_done :
      (queue : List PackageJob) (c : Bool) (i : ℕ) (busy : List PackageJob) (l : ℕ)
      (results : List JobResult) (f : ℕ) (all : List Issue)
      → length results < workers
      → Step r workers
          (pool queue c i busy (suc l) results f all)
          (pool queue c i busy l (results ++ done_result ∷ []) f all)
  -- The caller receives while some worker is not done.
  receive :
      (queue : List PackageJob) (c : Bool) (i : ℕ) (busy : List PackageJob) (l : ℕ)
      (result : JobResult) (results : List JobResult) (f : ℕ) (all : List Issue)
      → f < workers
      → Step r workers
          (pool queue c i busy l (result ∷ results) f all)
          (pool queue c i busy l results (count_done result f) (add_issues result all))

pub data Steps (r : CheckRunners) (workers : ℕ) : Pool → Pool → ℕ → Type 0 where
  stay : {p : Pool} → Steps r workers p p 0
  next :
      {p q s : Pool} {n : ℕ}
      → Step r workers p q
      → Steps r workers q s n
      → Steps r workers p s (suc n)

abbrev pub start : ℕ → List PackageJob → Pool
start workers jobs = pool jobs false workers [] 0 [] 0 []

-- The caller's loop ends.
abbrev pub IsFinished : ℕ → Pool → Type 0
IsFinished workers p = p.finished ≡ workers

-- The number of workers: the processors, at least one, and no more than there are jobs. It is 0 for
-- no jobs, where the source returns at once with nothing.
unfoldable pub worker_count : ℕ → List PackageJob → ℕ
worker_count processors jobs =
    let workers = if ltb processors 1 then 1 else processors in
    if ltb (length jobs) workers then length jobs else workers

-- The findings of the jobs, one job after the other.
abbrev pub issues_of : CheckRunners → List PackageJob → List Issue
issues_of r [] = []
issues_of r (job ∷ jobs) = job_issues r job ++ issues_of r jobs
