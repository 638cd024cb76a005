-- ===== src/Issues/Finalize.antt =====
-- internal/analyzer/types.go: FinalizeIssues.
use solidify.Base.{
  ◌==◌, if◌then◌else◌, length, Text, Map, lookup, insert, ◌>>=◌, Result, ℕ, ◌+◌, ◌≡◌, Bool, false,
  ◌||◌, none, some, List, [], ◌∷◌, arith, ok, err,
}
use solidify.Issues.Issue.{Issue, Platform, issue_id, issue_identity_key}
use solidify.Issues.Evidence.{derive_issue_identity}

pub data IdentityError : Type 0 where
  empty_identity : Text → IdentityError
  identity_collision : Text → ℕ → ℕ → IdentityError

abbrev pub is_nameless : Issue → Bool
is_nameless i = length i.subject == 0 || length i.identity == 0

-- The first statement of the loop's body.
unfoldable pub complete_identity : Platform → Text → Issue → Issue
complete_identity p package_path i =
    let (subject, identity) = derive_issue_identity p i package_path in
    if is_nameless i then record i { subject = subject; identity = identity } else i

-- The loop from an index on, with the keys that it has met and where.
unfoldable pub finalize_from :
    Platform → Text → ℕ → Map ℕ → List Issue → Result IdentityError (List Issue)
finalize_from p package_path index seen [] = ok []
finalize_from p package_path index seen (i ∷ issues) =
    let i' = complete_identity p package_path i in
    let key = issue_identity_key i' in
    let rest : Result IdentityError (List Issue) = do
      done ← finalize_from p package_path (index + 1) (insert key index seen) issues
      ok (i' ∷ done)
    in let unseen : Result IdentityError (List Issue) = elim (lookup key seen) [
      | some previous ↦ err (identity_collision (issue_id i') previous index)
      | none ↦ rest
    ] in
      if is_nameless i' then err (empty_identity (issue_id i')) else unseen

-- The findings with their identities, which Go writes into the slice it is given.
unfoldable pub finalize_issues : Platform → List Issue → Text → Result IdentityError (List Issue)
finalize_issues p issues package_path = finalize_from p package_path 0 [] issues

-- What finalizing leaves alone.
abbrev pub SameButIdentity : Issue → Issue → Type 0
SameButIdentity i j =
    (i.rule ≡ j.rule)
    × (i.check ≡ j.check)
    × (i.severity ≡ j.severity)
    × (i.pos ≡ j.pos)
    × (i.evidence ≡ j.evidence)
    × (i.related ≡ j.related)
    × (i.analysis_root ≡ j.analysis_root)

module _ (p : Platform) (package_path : Text) where
  -- The inversion of a successful round.
  pub finalize_from-inv :
      (index : ℕ) (seen : Map ℕ) (i : Issue) (issues : List Issue) {out : List Issue}
      → finalize_from p package_path index seen (i ∷ issues) ≡ ok out
      → (done : List Issue) × (out ≡ complete_identity p package_path i ∷ done)
        × (finalize_from p package_path
              (index + 1)
              (insert (issue_identity_key (complete_identity p package_path i)) index seen)
              issues
            ≡ ok done)
        × (lookup (issue_identity_key (complete_identity p package_path i)) seen ≡ none)
        × (is_nameless (complete_identity p package_path i) ≡ false)
  unfolding finalize_from
  finalize_from-inv index seen i issues {out} h = ground arith
