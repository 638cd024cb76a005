-- ===== src/Baseline/Reading.antt =====
-- internal/baseline/baseline.go: what validation accepts and which findings a document takes away.
use solidify.Base.{
  keep-eq, ◌==◌, is_some, ||-false, length, keep, any, all, Text, text_eq, text_eq_comm, Map,
  lookup, insert, flag, listed, distinct, flag-insert, is_ok, trim_space, ℕ, ◌+◌, ◌≡◌, refl, ap,
  ◌∙◌, Bool, true, not, ◌&&◌, ◌||◌, List, [], ◌∷◌, map, arith,
}
use solidify.Issues.Issue.{Issue, Platform, fingerprint}
use solidify.Registry.Index.{check_metadata}
use solidify.Baseline.Document.{
  Entry, Document, matches_fingerprint, parses_as_date, validate_reason, validate_entry,
  validate_entries, validate_document, is_expired, read_entries, read_at, filter,
}

-- A valid entry, without the loop over the document.
abbrev pub is_valid_entry : Entry → Bool
is_valid_entry e =
    matches_fingerprint e.fingerprint
    && (is_some (check_metadata e.check_id)
        && (not (length (trim_space e.path) == 0)
            && (not (length (trim_space e.subject) == 0)
                && (is_ok (validate_reason e.reason)
                    && (length e.expires == 0 || parses_as_date e.expires)))))

validate_entry-is_ok :
    (index : ℕ) (e : Entry)
    → (matches_fingerprint e.fingerprint && is_ok (validate_entry index e)) ≡ is_valid_entry e
unfolding validate_entry
validate_entry-is_ok index e = ground arith

abbrev is_unseen : Map Bool → Entry → Bool
is_unseen seen e = not (flag e.fingerprint seen)

abbrev pub fingerprints : List Entry → List Text
fingerprints entries = map (λ e. e.fingerprint) entries

all_unseen-insert :
    (k : Text) (seen : Map Bool) (entries : List Entry)
    → all (is_unseen (insert k true seen)) entries
      ≡ (all (is_unseen seen) entries && not (listed k (fingerprints entries)))
unfolding listed
all_unseen-insert k seen [] = refl
all_unseen-insert k seen (e ∷ entries) = ground (
  arith,
  all_unseen-insert k seen entries,
  flag-insert k e.fingerprint seen,
  text_eq_comm k e.fingerprint,
)

validate_entries-is_ok :
    (index : ℕ) (seen : Map Bool) (entries : List Entry)
    → is_ok (validate_entries index seen entries) ≡ (
        all is_valid_entry entries
        && distinct (fingerprints entries)
        && all (is_unseen seen) entries)
unfolding validate_entries distinct
validate_entries-is_ok index seen [] = refl
validate_entries-is_ok index seen (e ∷ entries) = ground (
  arith,
  validate_entry-is_ok index e,
  validate_entries-is_ok (index + 1) (insert e.fingerprint true seen) entries,
  all_unseen-insert e.fingerprint seen entries,
)

all_unseen-nil : (entries : List Entry) → all (is_unseen []) entries ≡ true
unfolding lookup
all_unseen-nil [] = refl
all_unseen-nil (e ∷ entries) = all_unseen-nil entries

-- A document is valid exactly when each of its entries is and no fingerprint stands in it twice.
pub validate_document-is_ok :
    (d : Document)
    → is_ok (validate_document d)
      ≡ (all is_valid_entry d.entries && distinct (fingerprints d.entries))
unfolding validate_document
validate_document-is_ok d =
    validate_entries-is_ok 0 [] d.entries ∙ ground (arith, all_unseen-nil d.entries)

-- Does the entry still accept the fingerprint on that day?
abbrev pub accepts : Text → Text → Entry → Bool
accepts today k e = text_eq e.fingerprint k && not (is_expired today e)

read_entries-flag :
    (today k : Text) (m : Map Bool) (entries : List Entry)
    → flag k (read_entries today m entries) ≡ (any (accepts today k) entries || flag k m)
unfolding read_entries
read_entries-flag today k m [] = refl
read_entries-flag today k m (e ∷ entries) = ground (
  arith,
  read_entries-flag today k m entries,
  read_entries-flag today k (insert e.fingerprint true m) entries,
  flag-insert e.fingerprint k m,
)

-- Reading a document on a day and filtering by it leaves exactly the findings whose fingerprint no
-- entry holds whose expiry is empty or not before that day.
pub filter-read_at :
    (p : Platform) (d : Document) (today : Text) (issues : List Issue)
    → filter p issues (read_at d today).accepted
      ≡ keep (λ i. not (any (accepts today (fingerprint p i)) d.entries)) issues
unfolding filter read_at lookup
filter-read_at p d today issues =
    keep-eq _ _ issues
      (λ i. ap not (read_entries-flag today (fingerprint p i) [] d.entries ∙ ||-false _))
