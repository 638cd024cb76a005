-- ===== src/Baseline/Kept.antt =====
-- internal/baseline/baseline.go: what Update does to reasons, owners and expiry dates.
use solidify.Base.{
  ◌==◌, if◌then◌else◌, Bool-cases, if_ind, length, keep, any, All, All-append, All-map, any-append,
  text_eq, text_eq_refl, lookup, listed, sort_by, All-sort_by, any-found, any-keep, any-sort_by,
  any-map, trim_space, ◌≡◌, sym, subst, inl, inr, Bool, true, false, not, ◌&&◌, ◌||◌, Option, none,
  some, List, [], ◌∷◌, ◌++◌, map, arith, ok,
}
use solidify.Issues.Issue.{Issue, Platform, fingerprint}
use solidify.Baseline.Document.{Entry, Document, Annotation, sort_entries}
use solidify.Baseline.Partition.{issue_fingerprints, is_live_lem}
use solidify.Baseline.Update.{
  by_fingerprint, is_added, is_live, diff, entry_for_issue, refresh, Updated, updated_entries,
  update,
}
use solidify.Baseline.Cycle.{UpdateFacts, update-inv}

-- The same acceptance of the same fingerprint.
abbrev pub same_annotation : Entry → Entry → Bool
same_annotation e e' =
    text_eq e.fingerprint e'.fingerprint
    && (text_eq e.reason e'.reason && (text_eq e.owner e'.owner && text_eq e.expires e'.expires))

abbrev pub is_kept : Document → Entry → Bool
is_kept d e' = any (λ e. same_annotation e e') d.entries

abbrev pub is_annotated : Annotation → Entry → Bool
is_annotated a e =
    text_eq e.reason (trim_space a.reason)
    && (text_eq e.owner (trim_space a.owner) && text_eq e.expires (trim_space a.expires))

abbrev IsJustified : Document → Annotation → Entry → Type 0
IsJustified d a e = (is_kept d e || is_annotated a e) ≡ true

same_annotation_refl : (e : Entry) → same_annotation e e ≡ true
same_annotation_refl e = ground (
  arith,
  text_eq_refl e.fingerprint,
  text_eq_refl e.reason,
  text_eq_refl e.owner,
  text_eq_refl e.expires,
)

any_self : (l : List Entry) → All (λ e'. any (λ e. same_annotation e e') l ≡ true) l
any_self [] = tt
any_self (e ∷ l) =
    (ground (arith, same_annotation_refl e), All-map _ _ l (λ e' h. ground (arith, h)) (any_self l))

All-keep {ℓ κ} :
    {A : Type ℓ} (P : A → Type κ) (p : A → Bool) (l : List A) → All P l → All P (keep p l)
All-keep P p [] h = tt
All-keep P p (a ∷ l) h =
    if_ind (All P) (p a) _ _ (λ _. (h.0, All-keep P p l h.1)) (λ _. All-keep P p l h.1)

All-mapped {ℓ κ μ} :
    {A : Type ℓ} {B : Type κ} (P : B → Type μ) (f : A → B) (l : List A)
    → All (λ a. P (f a)) l
    → All P (map f l)
All-mapped P f [] h = tt
All-mapped P f (a ∷ l) h = (h.0, All-mapped P f l h.1)

All-always {ℓ κ} : {A : Type ℓ} (P : A → Type κ) (l : List A) → ((a : A) → P a) → All P l
All-always P [] h = tt
All-always P (a ∷ l) h = (h a, All-always P l h)

module _ (p : Platform) (d : Document) (a : Annotation) (issues : List Issue) where
  entry_for_issue-IsJustified : (i : Issue) → IsJustified d a (entry_for_issue p i a)
  unfolding entry_for_issue
  entry_for_issue-IsJustified i = ground (
    arith,
    text_eq_refl (trim_space a.reason),
    text_eq_refl (trim_space a.owner),
    text_eq_refl (trim_space a.expires),
  )

  refresh-IsJustified :
      (e : Entry) (o : Option Issue) → is_kept d e ≡ true → IsJustified d a (refresh p a o e)
  unfolding refresh
  refresh-IsJustified e none h = ground (arith, h)
  refresh-IsJustified e (some i) h =
      if_ind (IsJustified d a) (length e.reason == 0) _ _ (λ _. entry_for_issue-IsJustified i)
        (λ _. ground (arith, h))

refresh-same_annotation :
    (p : Platform) (a : Annotation) (o : Option Issue) (e : Entry)
    → (length e.reason == 0) ≡ false
    → same_annotation e (refresh p a o e) ≡ true
unfolding refresh
refresh-same_annotation p a none e h = same_annotation_refl e
refresh-same_annotation p a (some i) e h = ground (arith, h, same_annotation_refl e)

-- May an update change how the old entry accepts its fingerprint, or drop it? Only where a current finding has
-- the fingerprint and the entry gives no reason, or where none has it and the update prunes.
abbrev pub may_change : Platform → List Issue → Bool → Entry → Bool
may_change p issues prune e =
    if listed e.fingerprint (issue_fingerprints p issues) then length e.reason == 0 else prune

module _ (p : Platform) (d : Document) (a : Annotation) (issues : List Issue) (prune : Bool) where
  abbrev updated : List Entry
  updated = updated_entries p issues a prune (diff p d issues)

  refreshed : Entry → Entry
  refreshed e = refresh p a (lookup e.fingerprint (by_fingerprint p issues)) e

  -- A test finds an entry in the new document that it finds among the live ones, refreshed, or
  -- among the stale ones, if these stay.
  any-updated :
      (f : Entry → Bool)
      → any f updated ≡ (
          any (λ e. is_live p issues e && f (refreshed e)) d.entries
          || (any f (map (λ i. entry_for_issue p i a) (diff p d issues).added)
              || (not prune && any (λ e. not (is_live p issues e) && f e) d.entries)))
  unfolding updated_entries diff refreshed
  any-updated f =
      let live = sort_entries (keep (is_live p issues) d.entries) in
      let stale = sort_entries (keep (λ e. not (is_live p issues e)) d.entries) in
      let added =
        map (λ i. entry_for_issue p i a) (sort_by (fingerprint p) (keep (is_added p d) issues)) in
      let rest : List Entry = if prune then [] else stale in
      ground (
        arith,
        any-sort_by f (λ e. e.fingerprint) (map refreshed live ++ (added ++ rest)),
        any-append f (map refreshed live) (added ++ rest),
        any-append f added rest,
        any-map f refreshed live,
        any-sort_by (λ e. f (refreshed e)) (λ e. e.fingerprint) (keep (is_live p issues) d.entries),
        any-keep (λ e. f (refreshed e)) (is_live p issues) d.entries,
        any-sort_by f (λ e. e.fingerprint) (keep (λ e. not (is_live p issues e)) d.entries),
        any-keep f (λ e. not (is_live p issues e)) d.entries,
      )

  updated-kept :
      (e : Entry)
      → ((f : Entry → Bool) → f e ≡ true → any f d.entries ≡ true)
      → (may_change p issues prune e || any (λ e'. same_annotation e e') updated) ≡ true
  unfolding refreshed
  updated-kept e found = elim (Bool-cases (may_change p issues prune e)) [
    | inl m ↦ ground (arith, m)
    | inr m ↦ elim (Bool-cases (is_live p issues e)) [
      | inl live ↦
          let reason : (length e.reason == 0) ≡ false =
            ground (arith, m, live, is_live_lem p issues e) in
          let same =
            refresh-same_annotation p a (lookup e.fingerprint (by_fingerprint p issues)) e reason in
          let there =
            found (λ e'. is_live p issues e' && same_annotation e (refreshed e'))
              (ground (arith, live, same)) in
          ground (arith, any-updated (λ e'. same_annotation e e'), there)
      | inr gone ↦
          let stays : prune ≡ false = ground (arith, m, gone, is_live_lem p issues e) in
          let there =
            found (λ e'. not (is_live p issues e') && same_annotation e e')
              (ground (arith, gone, same_annotation_refl e)) in
          ground (arith, any-updated (λ e'. same_annotation e e'), there, stays)
    ]
  ]

update-IsJustified_each :
    (p : Platform) (d : Document) (issues : List Issue) (a : Annotation) (prune : Bool)
    {u : Updated}
    → update p d issues a prune ≡ ok u
    → All (λ e. (is_kept d e || is_annotated a e) ≡ true) u.document.entries
unfolding UpdateFacts updated_entries diff
update-IsJustified_each p d issues a prune {u} h =
    let (_, _, _, entries, _, _) = update-inv p d issues a prune h in
    let kept = any_self d.entries in
    let stale : All (IsJustified d a)
        (sort_entries (keep (λ e. not (is_live p u.findings e)) d.entries)) =
      All-sort_by _ (IsJustified d a) _
        (All-keep _ _ _ (All-map _ _ d.entries (λ e k. ground (arith, k)) kept)) in
    let live =
      All-sort_by (λ e. e.fingerprint) (λ e. is_kept d e ≡ true) _
        (All-keep _ (is_live p u.findings) _ kept) in
    subst (All (IsJustified d a)) (sym entries) (
      All-sort_by _ (IsJustified d a) _ (
        All-append (IsJustified d a) _ _
          (All-mapped (IsJustified d a) _ _
            (All-map _ _ _ (λ e k. refresh-IsJustified p d a u.findings e _ k) live))
          (All-append (IsJustified d a) _ _
            (All-mapped (IsJustified d a) _ _
              (All-always _ _ (entry_for_issue-IsJustified p d a u.findings)))
            (if_ind (All (IsJustified d a)) prune _ _ (λ _. tt) (λ _. stale)))))

-- Every entry of a document that Update returns accepts its fingerprint as an entry of the old
-- document did, with the same reason, owner and expiry, or has those of the annotation given,
-- without the space around them. And every old entry is in it with its fingerprint, reason, owner and
-- expiry, but for those without a reason that a current finding has and, where the update prunes, those
-- that no current finding has.
pub update-IsJustified :
    (p : Platform) (d : Document) (issues : List Issue) (a : Annotation) (prune : Bool)
    {u : Updated}
    → update p d issues a prune ≡ ok u
    → All (λ e. (is_kept d e || is_annotated a e) ≡ true) u.document.entries
      × All
          (λ e.
            (may_change p u.findings prune e || any (λ e'. same_annotation e e') u.document.entries)
            ≡ true)
          d.entries
unfolding UpdateFacts
update-IsJustified p d issues a prune {u} h =
    let (_, _, _, entries, _, _) = update-inv p d issues a prune h in
    (
      update-IsJustified_each p d issues a prune h,
      subst
          (λ l.
            All
              (λ e. (may_change p u.findings prune e || any (λ e'. same_annotation e e') l) ≡ true)
              d.entries)
          (sym entries)
          (All-map _ _ d.entries (updated-kept p d a u.findings prune) (any-found d.entries)),
    )
