-- ===== src/Baseline/Cycle.antt =====
-- internal/baseline/baseline.go: what Update writes.
use solidify.Base.{
  if◌then◌else◌, Option-cases, keep, Text, text, lookup, listed, lookup-index_by-key,
  listed-map_append, listed-keep, is_ok, sort_by, IsSortedBy, listed-sort_by, sort_by-IsSortedBy,
  ◌≡◌, refl, sym, ap, ◌∙◌, subst, inl, inr, Bool, true, not, ◌&&◌, ◌||◌, List, [], ◌∷◌, ◌++◌, map,
  arith, ok,
}
use solidify.Issues.Issue.{Issue, Platform, fingerprint}
use solidify.Issues.Finalize.{finalize_issues}
use solidify.Baseline.Document.{
  Entry, Document, Annotation, version, validate_reason, validate_document, sort_entries,
}
use solidify.Baseline.Reading.{fingerprints}
use solidify.Baseline.Partition.{issue_fingerprints, is_live_lem, is_added_lem}
use solidify.Baseline.Update.{
  by_fingerprint, is_live, is_added, diff, entry_for_issue, refresh, Updated, requires_reason,
  updated_entries, update_finalized, update, prune,
}

refresh-fingerprint :
    (p : Platform) (a : Annotation) (issues : List Issue) (e : Entry)
    → (refresh p a (lookup e.fingerprint (by_fingerprint p issues)) e).fingerprint ≡ e.fingerprint
unfolding refresh entry_for_issue lookup
refresh-fingerprint p a issues e =
    elim (Option-cases (lookup e.fingerprint (by_fingerprint p issues))) [
      | inl h ↦ ap (λ o. (refresh p a o e).fingerprint) h
      | inr (i, h) ↦
          let found : fingerprint p i ≡ e.fingerprint =
            lookup-index_by-key (fingerprint p) e.fingerprint issues []
              (λ b none_there. absurd (cc)) h in
          ap (λ o. (refresh p a o e).fingerprint) h ∙ ground (arith, found)
    ]

fingerprints-refresh :
    (p : Platform) (a : Annotation) (issues : List Issue) (entries : List Entry)
    → fingerprints
        (map (λ e. refresh p a (lookup e.fingerprint (by_fingerprint p issues)) e) entries)
      ≡ fingerprints entries
fingerprints-refresh p a issues [] = refl
fingerprints-refresh p a issues (e ∷ entries) =
    rw (refresh-fingerprint p a issues e, fingerprints-refresh p a issues entries)

fingerprints-entry_for_issue :
    (p : Platform) (a : Annotation) (issues : List Issue)
    → fingerprints (map (λ i. entry_for_issue p i a) issues) ≡ issue_fingerprints p issues
unfolding entry_for_issue
fingerprints-entry_for_issue p a [] = refl
fingerprints-entry_for_issue p a (i ∷ issues) =
    ap (λ l. fingerprint p i ∷ l) (fingerprints-entry_for_issue p a issues)

-- The fingerprints of a document that Update makes.
updated_entries-fingerprints :
    (p : Platform) (d : Document) (issues : List Issue) (a : Annotation) (prune : Bool) (k : Text)
    → listed k (fingerprints (updated_entries p issues a prune (diff p d issues)))
      ≡ (listed k (issue_fingerprints p issues) || (not prune && listed k (fingerprints d.entries)))
unfolding updated_entries diff listed
updated_entries-fingerprints p d issues a prune k =
    let live : List Entry = sort_entries (keep (is_live p issues) d.entries) in
    let added : List Issue = sort_by (fingerprint p) (keep (is_added p d) issues) in
    let stale : List Entry = sort_entries (keep (λ e. not (is_live p issues e)) d.entries) in
    let is_current : Text → Bool = λ j. listed j (issue_fingerprints p issues) in
    let refreshed : List Entry =
      map (λ e. refresh p a (lookup e.fingerprint (by_fingerprint p issues)) e) live in
    let accepted : List Entry = map (λ i. entry_for_issue p i a) added in
    let rest : List Entry = if prune then [] else stale in
    ground (
      arith,
      listed-sort_by (λ e. e.fingerprint) k (refreshed ++ (accepted ++ rest)),
      listed-map_append (λ e. e.fingerprint) k refreshed (accepted ++ rest),
      listed-map_append (λ e. e.fingerprint) k accepted rest,
      ap (listed k) (fingerprints-refresh p a issues live),
      ap (listed k) (fingerprints-entry_for_issue p a added),
      listed-sort_by (λ e. e.fingerprint) k (keep (is_live p issues) d.entries),
      listed-sort_by (λ e. e.fingerprint) k (keep (λ e. not (is_live p issues e)) d.entries),
      listed-sort_by (fingerprint p) k (keep (is_added p d) issues),
      listed-keep (λ e. e.fingerprint) (is_live p issues) is_current (is_live_lem p issues) k
          d.entries,
      listed-keep (λ e. e.fingerprint) (λ e. not (is_live p issues e)) (λ j. not (is_current j))
          (λ e. ap not (is_live_lem p issues e)) k d.entries,
      listed-keep (fingerprint p) (is_added p d) (λ j. not (listed j (fingerprints d.entries)))
          (is_added_lem p d) k issues,
    )

unfoldable pub UpdateFacts : Platform → Document → List Issue → Annotation → Bool → Updated → Type 0
UpdateFacts p d issues a prune u =
    (finalize_issues p issues (text "workspace") ≡ ok u.findings)
    × (u.difference ≡ diff p d u.findings)
    × (u.document.version ≡ version)
    × (u.document.entries ≡ updated_entries p u.findings a prune (diff p d u.findings))
    × (is_ok (validate_document u.document) ≡ true)
    × (requires_reason d (diff p d u.findings) ≡ true → is_ok (validate_reason a.reason) ≡ true)

pub update-inv :
    (p : Platform) (d : Document) (issues : List Issue) (a : Annotation) (prune : Bool)
    {u : Updated}
    → update p d issues a prune ≡ ok u
    → UpdateFacts p d issues a prune u
unfolding update update_finalized UpdateFacts
update-inv p d issues a prune {u} h = ground arith

-- A document that Update returns is valid, of the current version and in the order of its
-- fingerprints; these are the fingerprints of the finalized findings, and without pruning also
-- those of the old document.
pub update-accepts :
    (p : Platform) (d : Document) (issues : List Issue) (a : Annotation) (prune : Bool)
    {u : Updated}
    → update p d issues a prune ≡ ok u
    → (is_ok (validate_document u.document) ≡ true)
      × (u.document.version ≡ version)
      × IsSortedBy (λ e. e.fingerprint) u.document.entries
      × ((k : Text)
          → listed k (fingerprints u.document.entries) ≡ (
              listed k (issue_fingerprints p u.findings)
              || (not prune && listed k (fingerprints d.entries))))
unfolding UpdateFacts updated_entries
update-accepts p d issues a prune {u} h =
    let (_, _, current, entries, valid, _) = update-inv p d issues a prune h in
    (
      valid,
      current,
      subst (IsSortedBy (λ e. e.fingerprint)) (sym entries) (sort_by-IsSortedBy _ _),
      λ k.
          ap (λ l. listed k (fingerprints l)) entries
          ∙ updated_entries-fingerprints p d u.findings a prune k,
    )
