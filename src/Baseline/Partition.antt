-- ===== src/Baseline/Partition.antt =====
-- internal/baseline/baseline.go: what Diff tells apart.
use solidify.Base.{
  ||-false, if_ind, keep, All, All-map, keep-eq, Text, lookup, listed, lookup-index_by-listed,
  sort_by-perm, IsSortedBy, sort_by-IsSortedBy, All-sort_by, keep-perm, Perm, ◌≡◌, sym, ap, ◌∙◌,
  subst, Bool, true, false, not, List, [], ◌∷◌, ◌++◌, map, arith,
}
use mathlib.Core.List.Perm
use solidify.Issues.Issue.{Issue, Platform, fingerprint}
use solidify.Baseline.Document.{Entry, Document}
use solidify.Baseline.Reading.{fingerprints}
use solidify.Baseline.Update.{is_live, is_added, diff}

abbrev pub issue_fingerprints : Platform → List Issue → List Text
issue_fingerprints p issues = map (fingerprint p) issues

-- An entry is live when a current finding has its fingerprint.
pub is_live_lem :
    (p : Platform) (issues : List Issue) (e : Entry)
    → is_live p issues e ≡ listed e.fingerprint (issue_fingerprints p issues)
unfolding lookup
is_live_lem p issues e =
    lookup-index_by-listed (fingerprint p) (λ i. i) e.fingerprint issues [] ∙ ||-false _

pub is_added_lem :
    (p : Platform) (d : Document) (i : Issue)
    → is_added p d i ≡ not (listed (fingerprint p i) (fingerprints d.entries))
unfolding lookup
is_added_lem p d i = ap not (
    lookup-index_by-listed (λ e. e.fingerprint) (λ e. e) (fingerprint p i) d.entries []
    ∙ ||-false _)

keep-All {ℓ} : {A : Type ℓ} (p : A → Bool) (l : List A) → All (λ a. p a ≡ true) (keep p l)
keep-All p [] = tt
keep-All p (a ∷ l) =
    if_ind (All (λ b. p b ≡ true)) (p a) (a ∷ keep p l) (keep p l) (λ e. (e, keep-All p l))
      (λ _. keep-All p l)

-- The live and the stale entries are together the document's entries; the live ones have the
-- fingerprint of a current finding and the stale ones do not; the added findings are the current
-- ones whose fingerprint no entry has; all three are in the order of the fingerprints.
pub diff-IsPartition :
    (p : Platform) (d : Document) (issues : List Issue)
    → Perm ((diff p d issues).live ++ (diff p d issues).stale) d.entries
      × All (λ e. listed e.fingerprint (issue_fingerprints p issues) ≡ true) (diff p d issues).live
      × All
          (λ e. listed e.fingerprint (issue_fingerprints p issues) ≡ false)
          (diff p d issues).stale
      × Perm
          (diff p d issues).added
          (keep (λ i. not (listed (fingerprint p i) (fingerprints d.entries))) issues)
      × IsSortedBy (λ e. e.fingerprint) (diff p d issues).live
      × IsSortedBy (λ e. e.fingerprint) (diff p d issues).stale
      × IsSortedBy (fingerprint p) (diff p d issues).added
unfolding diff
diff-IsPartition p d issues = (
  Perm.trans (Perm.append (sort_by-perm _ (keep (is_live p issues) d.entries)) (sort_by-perm _ _))
      (keep-perm (is_live p issues) d.entries),
  All-sort_by _ _ _ (
      All-map _ _ _ (λ e h. sym (is_live_lem p issues e) ∙ h)
        (keep-All (is_live p issues) d.entries)),
  All-sort_by _ _ _ (
      All-map _ _ _ (λ e h. ground (arith, is_live_lem p issues e, h))
        (keep-All (λ e. not (is_live p issues e)) d.entries)),
  subst (Perm _) (keep-eq _ _ issues (is_added_lem p d))
      (sort_by-perm (fingerprint p) (keep (is_added p d) issues)),
  sort_by-IsSortedBy _ _,
  sort_by-IsSortedBy _ _,
  sort_by-IsSortedBy _ _,
)
