-- ===== src/Run/Delivered.antt =====
-- internal/analyzer/run.go: what executePackageJobs has received when its loop ends.
use solidify.Base.{
  if◌then◌else◌, length, all, perm-swap_parts, Perm, ℕ, ◌≡◌, refl, sym, ap, ◌∙◌, subst, Bool, true,
  false, List, [], ◌∷◌, ◌++◌, append-nil, append_assoc,
}
use mathlib.Core.List.Perm
use solidify.Issues.Issue.{Issue}
use solidify.Run.Jobs.{CheckRunners, PackageJob, job_issues}
use solidify.Run.Pool.{
  JobResult, found, done_result, Pool, Step, Steps, take, close, leave, send, send_done, receive,
  stay, next, start, IsFinished, worker_count, issues_of,
}
use solidify.Run.Accounts.{start-Inv, Steps-Inv, finished-empty, worker_count_zero}

-- The findings in the buffer.
abbrev pub received : List JobResult → List Issue
received [] = []
received (x ∷ results) = (if x.done then [] else x.issues) ++ received results

received-append : (l m : List JobResult) → received (l ++ m) ≡ received l ++ received m
received-append [] m = refl
received-append (x ∷ l) m =
    ap (λ y. (if x.done then [] else x.issues) ++ y) (received-append l m)
    ∙ sym (append_assoc (if x.done then [] else x.issues) (received l) (received m))

module _ (r : CheckRunners) where
  -- All that has been or will be received.
  abbrev total : Pool → List Issue
  total p = p.all ++ (received p.results ++ (issues_of r p.busy ++ issues_of r p.queue))

  issues_of-append : (l m : List PackageJob) → issues_of r (l ++ m) ≡ issues_of r l ++ issues_of r m
  issues_of-append [] m = refl
  issues_of-append (job ∷ l) m =
      ap (λ x. job_issues r job ++ x) (issues_of-append l m)
      ∙ sym (append_assoc (job_issues r job) _ _)

  taken :
      (job : PackageJob) (busy queue : List PackageJob)
      → Perm
          (issues_of r (job ∷ busy) ++ issues_of r queue)
          (issues_of r busy ++ issues_of r (job ∷ queue))
  taken job busy queue =
      subst (λ x. Perm x (issues_of r busy ++ (job_issues r job ++ issues_of r queue)))
        (sym (append_assoc (job_issues r job) (issues_of r busy) (issues_of r queue)))
        (perm-swap_parts (job_issues r job) (issues_of r busy) (issues_of r queue))

  -- What a job found goes from the busy workers to the end of the buffer.
  sent :
      (before : List PackageJob) (job : PackageJob) (after queue : List PackageJob)
      (there : List Issue)
      → Perm
          ((there ++ job_issues r job) ++ (issues_of r (before ++ after) ++ issues_of r queue))
          (there ++ (issues_of r (before ++ (job ∷ after)) ++ issues_of r queue))
  sent before job after queue there =
      let new = job_issues r job in
      let b = issues_of r before in
      let rest = issues_of r after ++ issues_of r queue in
      let left : (there ++ new) ++ (issues_of r (before ++ after) ++ issues_of r queue)
          ≡ there ++ (new ++ (b ++ rest)) =
        rw
          (
            issues_of-append before after,
            append_assoc there new _,
            append_assoc b (issues_of r after) (issues_of r queue),
          )
          refl in
      let right : there ++ (issues_of r (before ++ (job ∷ after)) ++ issues_of r queue)
          ≡ there ++ (b ++ (new ++ rest)) =
        rw
          (
            issues_of-append before (job ∷ after),
            append_assoc b _ (issues_of r queue),
            append_assoc new (issues_of r after) (issues_of r queue),
          )
          refl in
      subst (λ x. Perm x (there ++ (issues_of r (before ++ (job ∷ after)) ++ issues_of r queue)))
        (sym left)
        (subst (Perm _) (sym right) (Perm.append_left there (perm-swap_parts new b rest)))

  same_perm : {l m : List Issue} → l ≡ m → Perm l m
  same_perm {l} e = subst (Perm l) e Perm.rfl

  received_last :
      (results : List JobResult) (result : JobResult)
      → received (results ++ result ∷ [])
        ≡ received results ++ (if result.done then [] else result.issues)
  received_last results result =
      received-append results (result ∷ [])
      ∙ ap (λ x. received results ++ x) (append-nil (if result.done then [] else result.issues))

  Step-total : {workers : ℕ} {p q : Pool} → Step r workers p q → Perm (total q) (total p)
  Step-total (take job queue c i busy l results f all) =
      Perm.append_left all (Perm.append_left (received results) (taken job busy queue))
  Step-total (close i busy l results f all) = Perm.rfl
  Step-total (leave queue i busy l results f all) = Perm.rfl
  Step-total (send queue c i before job after l results f all room) = Perm.append_left all (
      subst
        (λ x.
          Perm (x ++ (issues_of r (before ++ after) ++ issues_of r queue))
            (received results ++ (issues_of r (before ++ (job ∷ after)) ++ issues_of r queue)))
        (sym (received_last results (found (job_issues r job))))
        (sent before job after queue (received results)))
  Step-total (send_done queue c i busy l results f all room) =
      same_perm (rw (received_last results done_result, append-nil (received results)) refl)
  Step-total (receive queue c i busy l result results f all more) =
      same_perm (received_first result.done result.issues all (received results) _)
    where
      received_first :
          (done : Bool) (issues l m n : List Issue)
          → (if done then l else l ++ issues) ++ (m ++ n)
            ≡ l ++ (((if done then [] else issues) ++ m) ++ n)
      received_first true issues l m n = refl
      received_first false issues l m n =
          append_assoc l issues (m ++ n) ∙ ap (λ x. l ++ x) (sym (append_assoc issues m n))

  Steps-total : {workers n : ℕ} {p q : Pool} → Steps r workers p q n → Perm (total q) (total p)
  Steps-total stay = Perm.rfl
  Steps-total (next s rest) = Perm.trans (Steps-total rest) (Step-total s)

  -- The pool with any number of workers, at least one if there are jobs.
  pub pool-perm :
      (workers : ℕ) (jobs : List PackageJob) {p : Pool} {n : ℕ}
      → (workers ≡ 0 → length jobs ≡ 0)
      → Steps r workers (start workers jobs) p n
      → IsFinished workers p
      → Perm p.all (issues_of r jobs)
  pool-perm workers jobs {p} some_worker steps end =
      let (results, busy, queue) =
        finished-empty (Steps-Inv steps (start-Inv workers jobs)) end some_worker in
      let e : total p ≡ p.all = rw (results, busy, queue) (append-nil p.all) in
      subst (λ x. Perm x (issues_of r jobs)) e (Steps-total steps)

-- However many processors there are, in whatever order the workers take the jobs and send their
-- results: when the caller has received from every worker that it is done, the findings received are
-- those of the jobs run one after the other, up to their order.
pub execute_package_jobs-perm :
    (r : CheckRunners) (processors : ℕ) (jobs : List PackageJob) {p : Pool} {n : ℕ}
    → Steps r (worker_count processors jobs) (start (worker_count processors jobs) jobs) p n
    → IsFinished (worker_count processors jobs) p
    → Perm p.all (issues_of r jobs)
execute_package_jobs-perm r processors jobs =
    pool-perm r (worker_count processors jobs) jobs (worker_count_zero processors jobs)
