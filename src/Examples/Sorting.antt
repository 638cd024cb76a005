-- ===== src/Examples/Sorting.antt =====
-- internal/analyzer/run.go: the order of the findings and their identities on small inputs.
use solidify.Base.{get_elem?, Text, text, ◌≡◌, refl, true, some, List, [], ◌∷◌, ◌++◌, map, arith}
use solidify.Issues.Issue.{Issue}
use solidify.Run.Jobs.{Package, CheckRunners, PackageJob, job_issues}
use solidify.Run.Pool.{
  Pool, pool, Steps, take, close, leave, send, send_done, receive, stay, next, start,
}
use solidify.Run.Sorted.{place, sort_issues, sort_issues-deterministic}
use solidify.Run.Identities.{disambiguate_identities}
use solidify.Run.Unique.{disambiguate_identities-get_elem?}
use solidify.Examples.Findings.{finding, finalize_program}
use solidify.Examples.Running.{isp_check, isp_group, store_package}

-- Each package has one finding, in its first file.
abbrev in_first_file : Package → List Issue
in_first_file pkg = map (λ f. finding f.filename) pkg.files

abbrev runners : CheckRunners
runners = record { run_package = λ c pkg. in_first_file pkg; run_program = λ c pkgs. [] }

abbrev job : Text → PackageJob
job file = record {
  pkg = record store_package {
    files = (record { filename = file; declarations = []; comments = [] }) ∷ [];
  };
  group = isp_group;
  check = isp_check;
}

abbrev store : PackageJob
store = job (text "/work/store.go")

abbrev api : PackageJob
api = job (text "/work/api.go")

abbrev jobs : List PackageJob
jobs = store ∷ api ∷ []

abbrev in_turn : Pool
in_turn = pool [] true 0 [] 0 [] 1 (job_issues runners store ++ job_issues runners api)

abbrev overtaken : Pool
overtaken = pool [] true 0 [] 0 [] 2 (job_issues runners api ++ job_issues runners store)

-- One worker.
one_by_one : Steps runners 1 (start 1 jobs) in_turn 10
one_by_one = next (take _ _ _ 0 _ _ _ _ _) (
    next (send _ _ _ [] _ _ _ _ _ _ (omega arith)) (
      next (receive _ _ _ _ _ _ _ _ _ (omega arith)) (
        next (take _ _ _ 0 _ _ _ _ _) (
          next (send _ _ _ [] _ _ _ _ _ _ (omega arith)) (
            next (close _ _ _ _ _ _) (
              next (receive _ _ _ _ _ _ _ _ _ (omega arith)) (
                next (leave _ 0 _ _ _ _ _) (
                  next (send_done _ _ _ _ 0 _ _ _ (omega arith))
                    (next (receive _ _ _ _ _ _ _ _ _ (omega arith)) stay)))))))))

-- Two workers, the second of which sends first; one is done while the other still runs its job.
at_once : Steps runners 2 (start 2 jobs) overtaken 13
at_once = next (take _ _ _ 1 _ _ _ _ _) (
    next (take _ _ _ 0 _ _ _ _ _) (
      next (send _ _ _ [] _ _ _ _ _ _ (omega arith)) (
        next (close _ _ _ _ _ _) (
          next (leave _ 0 _ _ _ _ _) (
            next (send_done _ _ _ _ 0 _ _ _ (omega arith)) (
              next (receive _ _ _ _ _ _ _ _ _ (omega arith)) (
                next (receive _ _ _ _ _ _ _ _ _ (omega arith)) (
                  next (send _ _ _ [] _ _ _ _ _ _ (omega arith)) (
                    next (leave _ 0 _ _ _ _ _) (
                      next (send_done _ _ _ _ 0 _ _ _ (omega arith)) (
                        next (receive _ _ _ _ _ _ _ _ _ (omega arith))
                          (next (receive _ _ _ _ _ _ _ _ _ (omega arith)) stay))))))))))))

sort_issues-deterministic_example :
    map place (sort_issues in_turn.all) ≡ map place (sort_issues overtaken.all)
sort_issues-deterministic_example =
    sort_issues-deterministic runners jobs (omega arith) (omega arith) one_by_one refl at_once refl

-- Three findings, the first and the last of which share their key.
abbrev shared : List Issue
shared =
    finding (text "/work/store.go")
    ∷ finding (text "/work/api.go")
    ∷ finding (text "/work/store.go")
    ∷ []

disambiguate_identities-get_elem?_example :
    get_elem? (disambiguate_identities (λ i. text "Store") shared) 1
    ≡ some (finding (text "/work/api.go"))
unfolding finalize_program
disambiguate_identities-get_elem?_example =
    disambiguate_identities-get_elem? (λ i. text "Store") shared 1 refl refl
