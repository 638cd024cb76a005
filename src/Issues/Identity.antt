-- ===== src/Issues/Identity.antt =====
-- internal/analyzer/types.go: what FinalizeIssues guarantees.
use solidify.Base.{
  is_some, all, Text, text_eq_comm, Map, lookup, insert, lookup-insert, listed, distinct, is_ok, ℕ,
  ◌+◌, ◌≡◌, refl, ◌∙◌, Bool, true, false, not, ◌&&◌, List, [], ◌∷◌, map, arith, ok,
}
use solidify.Issues.Issue.{Issue, Platform, issue_identity_key}
use solidify.Issues.Finalize.{
  is_nameless, complete_identity, finalize_from, finalize_from-inv, finalize_issues,
}

module _ (p : Platform) (package_path : Text) where
  abbrev pub completed : Issue → Issue
  completed i = complete_identity p package_path i

  -- The key of a finding once it has an identity.
  abbrev pub completed_key : Issue → Text
  completed_key i = issue_identity_key (completed i)

  abbrev is_unseen : Map ℕ → Issue → Bool
  is_unseen seen i = not (is_some (lookup (completed_key i) seen))

  all_unseen-insert :
      (k : Text) (n : ℕ) (seen : Map ℕ) (issues : List Issue)
      → all (is_unseen (insert k n seen)) issues
        ≡ (all (is_unseen seen) issues && not (listed k (map completed_key issues)))
  unfolding listed
  all_unseen-insert k n seen [] = refl
  all_unseen-insert k n seen (i ∷ issues) = ground (
    arith,
    all_unseen-insert k n seen issues,
    lookup-insert k (completed_key i) n seen,
    text_eq_comm k (completed_key i),
  )

  abbrev pub is_named : Issue → Bool
  is_named i = not (is_nameless (completed i))

  finalize_from-is_ok :
      (index : ℕ) (seen : Map ℕ) (issues : List Issue)
      → is_ok (finalize_from p package_path index seen issues) ≡ (
          all is_named issues && distinct (map completed_key issues) && all (is_unseen seen) issues)
  unfolding finalize_from distinct
  finalize_from-is_ok index seen [] = refl
  finalize_from-is_ok index seen (i ∷ issues) = ground (
    arith,
    finalize_from-is_ok (index + 1) (insert (completed_key i) index seen) issues,
    all_unseen-insert (completed_key i) index seen issues,
  )

  all_unseen-nil : (issues : List Issue) → all (is_unseen []) issues ≡ true
  unfolding lookup
  all_unseen-nil [] = refl
  all_unseen-nil (i ∷ issues) = all_unseen-nil issues

  -- Finalizing succeeds exactly when each finding has a subject and an identity, of its own or from
  -- its evidence, and no two findings then have the same key.
  pub finalize_issues-is_ok :
      (issues : List Issue)
      → is_ok (finalize_issues p issues package_path)
        ≡ (all is_named issues && distinct (map completed_key issues))
  unfolding finalize_issues
  finalize_issues-is_ok issues =
      finalize_from-is_ok 0 [] issues ∙ ground (arith, all_unseen-nil issues)

  finalize_from-completed :
      (index : ℕ) (seen : Map ℕ) (issues : List Issue) {out : List Issue}
      → finalize_from p package_path index seen issues ≡ ok out
      → out ≡ map completed issues
  unfolding finalize_from
  finalize_from-completed index seen [] h = ground arith
  finalize_from-completed index seen (i ∷ issues) h =
      let (done, e, rest, _, _) = finalize_from-inv p package_path index seen i issues h in
      ground (arith, e, finalize_from-completed (index + 1) _ issues rest)

pub completed-named :
    (p : Platform) (path : Text) (i : Issue)
    → is_nameless i ≡ false
    → complete_identity p path i ≡ i
unfolding complete_identity
completed-named p path i h = ground (arith, h)

finalize_from-again :
    (p : Platform) (path path' : Text) (index : ℕ) (seen : Map ℕ) (issues : List Issue)
    {out : List Issue}
    → finalize_from p path index seen issues ≡ ok out
    → finalize_from p path' index seen out ≡ ok out
unfolding finalize_from
finalize_from-again p path path' index seen [] {out} h = let e : out ≡ [] = ground arith in rw e
finalize_from-again p path path' index seen (i ∷ issues) {out} h =
    let (done, e, rest, unseen, named) = finalize_from-inv p path index seen i issues h in
    rw e (
      ground (
        arith,
        unseen,
        named,
        completed-named p path' (complete_identity p path i) named,
        finalize_from-again p path path' (index + 1) _ issues rest,
      ))

-- Findings that were finalized are the given ones with their identities completed, and finalizing
-- them again, for any package, changes nothing.
pub finalize_issues-stable :
    (p : Platform) (issues : List Issue) (path path' : Text) {out : List Issue}
    → finalize_issues p issues path ≡ ok out
    → (out ≡ map (completed p path) issues) × (finalize_issues p out path' ≡ ok out)
unfolding finalize_issues
finalize_issues-stable p issues path path' h =
    (finalize_from-completed p path 0 [] issues h, finalize_from-again p path path' 0 [] issues h)
