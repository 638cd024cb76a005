-- ===== src/Baseline/Gone.antt =====
-- internal/baseline/baseline.go: when Stale finds something.
use solidify.Base.{
  ◌==◌, Bool-cases, ||-false, length, keep, any, any-eq, Text, text_eq, text_eq-eq, Map, lookup,
  insert, flag, listed, index_by, flag-insert, sort_by, any-keep, any-sort_by, any-map, ◌≡◌, refl,
  ap, ◌∙◌, inl, inr, Bool, true, not, ◌&&◌, ◌||◌, List, [], ◌∷◌, map, arith,
}
use solidify.Issues.Issue.{Issue, Platform, fingerprint}
use solidify.Baseline.Document.{Entry, Document, is_expired, read_entries, read_at}
use solidify.Baseline.Partition.{issue_fingerprints}
use solidify.Baseline.Stale.{stale}

flag-index_by {ℓ} :
    {A : Type ℓ} (key : A → Text) (k : Text) (l : List A) (m : Map Bool)
    → flag k (index_by key (λ a. true) l m) ≡ (listed k (map key l) || flag k m)
unfolding index_by listed
flag-index_by key k [] m = refl
flag-index_by key k (a ∷ l) m =
    ground (arith, flag-index_by key k l (insert (key a) true m), flag-insert (key a) k m)

any-insert :
    (g : Text → Bool) (k : Text) (m : Map Bool)
    → any (λ e. g e.0) (insert k true m) ≡ (g k || any (λ e. g e.0) m)
unfolding insert
any-insert g k [] = refl
any-insert g k (e ∷ m) = elim (Bool-cases (text_eq e.0 k)) [
  | inl same ↦ let holds : g e.0 ≡ g k = ap g (text_eq-eq e.0 k same) in ground (arith, same, holds)
  | inr other ↦ ground (arith, other, any-insert g k m)
]

any-read_entries :
    (g : Text → Bool) (today : Text) (m : Map Bool) (entries : List Entry)
    → any (λ e. g e.0) (read_entries today m entries)
      ≡ (any (λ e. not (is_expired today e) && g e.fingerprint) entries || any (λ e. g e.0) m)
unfolding read_entries
any-read_entries g today m [] = refl
any-read_entries g today m (e ∷ entries) = ground (
  arith,
  any-read_entries g today m entries,
  any-read_entries g today (insert e.fingerprint true m) entries,
  any-insert g e.fingerprint m,
)

not-empty {ℓ} : {A : Type ℓ} (l : List A) → not (length l == 0) ≡ any (λ a. true) l
not-empty [] = refl
not-empty (a ∷ l) = ground arith

-- The unexpired entries whose fingerprint no current finding has.
abbrev pub is_gone : Platform → Text → List Issue → Entry → Bool
is_gone p today issues e =
    not (is_expired today e) && not (listed e.fingerprint (issue_fingerprints p issues))

-- Stale finds something in what was read on a day exactly when some entry is gone.
pub stale-is_gone :
    (p : Platform) (d : Document) (today : Text) (issues : List Issue)
    → not (length (stale p (read_at d today).accepted issues) == 0)
      ≡ any (is_gone p today issues) d.entries
unfolding stale read_at lookup
stale-is_gone p d today issues =
    let present = index_by (fingerprint p) (λ i. true) issues [] in
    let keys : List Text = map (λ e. e.0) (read_entries today [] d.entries) in
    let gone : Text → Bool = λ k. not (flag k present) in
    let found : (k : Text) → flag k present ≡ listed k (issue_fingerprints p issues) =
      λ k. flag-index_by (fingerprint p) k issues [] ∙ ||-false _ in
    not-empty (sort_by (λ k. k) (keep gone keys))
    ∙ (any-sort_by (λ _. true) (λ k. k) (keep gone keys)
        ∙ (any-keep (λ _. true) gone keys
            ∙ (any-map (λ k. gone k && true) (λ e. e.0) (read_entries today [] d.entries)
                ∙ (any-read_entries (λ k. gone k && true) today [] d.entries
                    ∙ (||-false _
                        ∙ any-eq _ (is_gone p today issues) d.entries
                            (λ e. ground (arith, found e.fingerprint)))))))
