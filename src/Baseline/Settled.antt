-- ===== src/Baseline/Settled.antt =====
-- internal/baseline/baseline.go: what a second comparison finds after Update, and what Prune writes.
use solidify.Base.{
  ◌==◌, length, keep, All, All-map, Text, listed, listed-head, listed-tail, listed-keep, is_ok,
  sort_by, listed-sort_by, trim_left, trim_right, trim_space, ◌≡◌, refl, sym, ap, ◌∙◌, Bool, true,
  false, not, ◌&&◌, List, [], ◌∷◌, map, arith, ok,
}
use solidify.Issues.Issue.{Issue, Platform, fingerprint}
use solidify.Baseline.Document.{Document, Annotation, legacy_version, validate_reason, sort_entries}
use solidify.Baseline.Reading.{fingerprints}
use solidify.Baseline.Partition.{issue_fingerprints, is_live_lem, is_added_lem}
use solidify.Baseline.Update.{DiffResult, is_added, diff, Updated, updated_entries, update, prune}
use solidify.Baseline.Cycle.{UpdateFacts, update-inv, update-accepts}

keep-none {ℓ} : {A : Type ℓ} (p : A → Bool) (l : List A) → All (λ a. p a ≡ false) l → keep p l ≡ []
keep-none p [] h = refl
keep-none p (a ∷ l) h = rw (h.0) (keep-none p l h.1)

-- Each element's key is one of the list's keys.
listed-All {ℓ} :
    {A : Type ℓ} (key : A → Text) (l : List A) → All (λ a. listed (key a) (map key l) ≡ true) l
unfolding listed
listed-All key [] = tt
listed-All key (a ∷ l) = (
  listed-head (key a) (map key l),
  All-map _ _ l (λ b. listed-tail (key b) (key a) _) (listed-All key l),
)

-- Right after an update no finding is added to the document, and after one that prunes no entry of
-- it is stale.
pub update-settles :
    (p : Platform) (d : Document) (issues : List Issue) (a : Annotation) (prune : Bool)
    {u : Updated}
    → update p d issues a prune ≡ ok u
    → ((diff p u.document u.findings).added ≡ [])
      × (prune ≡ true → (diff p u.document u.findings).stale ≡ [])
unfolding diff sort_by
update-settles p d issues a prune {u} h =
    let (_, _, _, holds) = update-accepts p d issues a prune h in
    (
      ap (sort_by (fingerprint p)) (
          keep-none _ u.findings (
            All-map _ _ u.findings
              (λ i known.
                ground (arith, known, is_added_lem p u.document i, holds (fingerprint p i)))
              (listed-All (fingerprint p) u.findings))),
      λ pruned. ap sort_entries (
          keep-none _ u.document.entries (
            All-map _ _ u.document.entries
              (λ e known.
                ground (arith, pruned, known, is_live_lem p u.findings e, holds e.fingerprint))
              (listed-All (λ e. e.fingerprint) u.document.entries))),
    )

empty_reason : is_ok (validate_reason []) ≡ false
unfolding validate_reason trim_space trim_left trim_right
empty_reason = refl

length-zero {ℓ} : {A : Type ℓ} (l : List A) → (length l == 0) ≡ true → l ≡ []
length-zero [] h = refl
length-zero (a ∷ l) h = absurd (ground arith)

-- Nothing that needs a reason was left to write when Prune succeeds.
prune-added :
    (p : Platform) (d : Document) (issues : List Issue) {u : Updated}
    → prune p d issues ≡ ok u
    → (u.difference ≡ diff p d u.findings)
      × ((diff p d u.findings).added ≡ [])
      × (d.version ≡ legacy_version → (diff p d u.findings).live ≡ [])
unfolding prune UpdateFacts
prune-added p d issues {u} h =
    let (_, difference, _, _, _, reason) = update-inv p d issues _ true h in
    let r : DiffResult = diff p d u.findings in
    (
      difference,
      length-zero r.added (ground (arith, reason, empty_reason)),
      λ old. length-zero r.live (ground (arith, old, reason, empty_reason)),
    )

nothing_added :
    (p : Platform) (d : Document) (issues : List Issue)
    → (diff p d issues).added ≡ []
    → (k : Text)
    → (listed k (issue_fingerprints p issues) && not (listed k (fingerprints d.entries))) ≡ false
unfolding diff listed
nothing_added p d issues h k =
    sym (
      listed-keep (fingerprint p) (is_added p d) (λ j. not (listed j (fingerprints d.entries)))
        (is_added_lem p d) k issues)
    ∙ (sym (listed-sort_by (fingerprint p) k (keep (is_added p d) issues))
        ∙ ap (λ l. listed k (issue_fingerprints p l)) h)

-- Pruning never accepts a finding that the document did not: it fails, or the new document's
-- fingerprints are those of the old one that a current finding has. Nor does it carry an entry of
-- a version 4 document over.
pub prune-narrows :
    (p : Platform) (d : Document) (issues : List Issue) {u : Updated}
    → prune p d issues ≡ ok u
    → (u.difference.added ≡ [])
      × (d.version ≡ legacy_version → u.document.entries ≡ [])
      × ((k : Text)
          → listed k (fingerprints u.document.entries)
            ≡ (listed k (issue_fingerprints p u.findings) && listed k (fingerprints d.entries)))
unfolding prune UpdateFacts updated_entries sort_by
prune-narrows p d issues {u} h =
    let (difference, added, live) = prune-added p d issues h in
    let (_, _, _, entries, _, _) = update-inv p d issues _ true h in
    let (_, _, _, holds) = update-accepts p d issues _ true h in
    (
      ap (λ r. r.added) difference ∙ added,
      λ old. entries ∙ rw (live old, added) refl,
      λ k. ground (arith, holds k, nothing_added p d u.findings added k),
    )
