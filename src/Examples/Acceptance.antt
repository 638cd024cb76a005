-- ===== src/Examples/Acceptance.antt =====
-- internal/baseline/baseline.go: accepting one finding of two, then pruning.
use solidify.Base.{
  ltb, ◌==◌, length, keep, any, all, All, Text, text, text_lt, listed, distinct, is_ok, Result,
  insert_sorted, sort_by, IsSortedBy, Perm, ◌≡◌, refl, true, false, not, ◌&&◌, ◌||◌, [], ◌∷◌, ◌++◌,
  map, ok, err,
}
use solidify.Issues.Issue.{fingerprint}
use solidify.Ids.{check_isp_fat_interface}
use solidify.Baseline.Document.{
  Entry, is_expired, Document, Annotation, version, legacy_version, matches_fingerprint,
  parses_as_date, validate_reason, validate_entry, validate_entries, validate_document, load,
  legacy_entries, read_entries, read_at, filter,
}
use solidify.Baseline.Update.{
  diff, entry_for_issue, refresh, updated_entries, update_finalized, Updated, update, prune,
}
use solidify.Baseline.Reading.{
  is_valid_entry, fingerprints, validate_document-is_ok, accepts, filter-read_at,
}
use solidify.Baseline.Partition.{issue_fingerprints, diff-IsPartition}
use solidify.Baseline.Cycle.{update-accepts}
use solidify.Baseline.Kept.{same_annotation, may_change, is_kept, is_annotated, update-IsJustified}
use solidify.Baseline.Expiry.{day_number, is_expired-day_number}
use solidify.Baseline.Settled.{update-settles, prune-narrows}
use solidify.Examples.Selection.{selection_program}
use solidify.Examples.Findings.{test_platform, two_findings, finding, finalize_program, finalized}

-- What a run of Update unfolds.
unfoldable pub baseline_program : Unit {0}
unfolding finalize_program selection_program update update_finalized updated_entries refresh
    entry_for_issue diff validate_document validate_entries validate_entry validate_reason
    matches_fingerprint parses_as_date sort_by insert_sorted text_lt prune read_at read_entries
    filter load legacy_entries
baseline_program = tt

abbrev no_entries : Document
no_entries = record { version = 5; entries = [] }

abbrev accepted_reason : Annotation
accepted_reason = record {
  reason = text " reviewed with the owners ";
  owner = text "core";
  expires = text "2026-02-28";
}

abbrev nothing : Updated
nothing = record {
  document = no_entries;
  difference = record { added = []; stale = []; live = [] };
  findings = [];
}

abbrev or_nothing {ℓ} : {E : Type ℓ} → Result E Updated → Updated
or_nothing (ok u) = u
or_nothing (err _) = nothing

accepted : Updated
unfolding baseline_program
accepted = or_nothing (update test_platform no_entries two_findings accepted_reason false)

accepted_ok : update test_platform no_entries two_findings accepted_reason false ≡ ok accepted
unfolding baseline_program accepted
accepted_ok = refl

-- Both findings are now in the document.
accepted_two : length accepted.document.entries ≡ 2
unfolding baseline_program accepted
accepted_two = refl

-- The first finding only, pruned.
pruned : Updated
unfolding baseline_program accepted
pruned = or_nothing (prune test_platform accepted.document (finding (text "/work/a.go") ∷ []))

pruned_ok : prune test_platform accepted.document (finding (text "/work/a.go") ∷ []) ≡ ok pruned
unfolding baseline_program accepted pruned
pruned_ok = refl

pruned_one : length pruned.document.entries ≡ 1
unfolding baseline_program accepted pruned
pruned_one = refl

no_such_day : parses_as_date (text "2026-02-29") ≡ false
unfolding baseline_program
no_such_day = refl

validate_document-is_ok_example : is_ok (validate_document accepted.document) ≡ (
    all is_valid_entry accepted.document.entries
    && distinct (fingerprints accepted.document.entries))
validate_document-is_ok_example = validate_document-is_ok accepted.document

filter-read_at_example :
    filter test_platform finalized (read_at accepted.document (text "2026-03-01")).accepted
    ≡ keep
        (λ i. not (
          any
            (accepts (text "2026-03-01") (fingerprint test_platform i))
            accepted.document.entries))
        finalized
filter-read_at_example =
    filter-read_at test_platform accepted.document (text "2026-03-01") finalized

diff-IsPartition_example :
    Perm
      ((diff test_platform accepted.document finalized).live
        ++ (diff test_platform accepted.document finalized).stale)
      accepted.document.entries
    × All
        (λ e. listed e.fingerprint (issue_fingerprints test_platform finalized) ≡ true)
        (diff test_platform accepted.document finalized).live
    × All
        (λ e. listed e.fingerprint (issue_fingerprints test_platform finalized) ≡ false)
        (diff test_platform accepted.document finalized).stale
    × Perm (diff test_platform accepted.document finalized).added (
        keep
          (λ i. not (listed (fingerprint test_platform i) (fingerprints accepted.document.entries)))
          finalized)
    × IsSortedBy (λ e. e.fingerprint) (diff test_platform accepted.document finalized).live
    × IsSortedBy (λ e. e.fingerprint) (diff test_platform accepted.document finalized).stale
    × IsSortedBy (fingerprint test_platform) (diff test_platform accepted.document finalized).added
diff-IsPartition_example = diff-IsPartition test_platform accepted.document finalized

update-accepts_example :
    (is_ok (validate_document accepted.document) ≡ true)
    × (accepted.document.version ≡ version)
    × IsSortedBy (λ e. e.fingerprint) accepted.document.entries
    × ((k : Text)
        → listed k (fingerprints accepted.document.entries) ≡ (
            listed k (issue_fingerprints test_platform accepted.findings)
            || (not false && listed k (fingerprints []))))
update-accepts_example =
    update-accepts test_platform no_entries two_findings accepted_reason false accepted_ok

update-settles_example :
    ((diff test_platform accepted.document accepted.findings).added ≡ [])
    × (false ≡ true → (diff test_platform accepted.document accepted.findings).stale ≡ [])
update-settles_example =
    update-settles test_platform no_entries two_findings accepted_reason false accepted_ok

prune-narrows_example :
    (pruned.difference.added ≡ [])
    × (accepted.document.version ≡ legacy_version → pruned.document.entries ≡ [])
    × ((k : Text)
        → listed k (fingerprints pruned.document.entries) ≡ (
            listed k (issue_fingerprints test_platform pruned.findings)
            && listed k (fingerprints accepted.document.entries)))
prune-narrows_example =
    prune-narrows test_platform accepted.document (finding (text "/work/a.go") ∷ []) pruned_ok

-- The first finding again, with another reason, and without pruning.
abbrev second_reason : Annotation
second_reason = record { reason = text "reviewed once again"; owner = []; expires = [] }

updated_again : Updated
unfolding baseline_program accepted
updated_again =
    or_nothing (
      update test_platform accepted.document (finding (text "/work/a.go") ∷ []) second_reason false)

updated_again_ok :
    update test_platform accepted.document (finding (text "/work/a.go") ∷ []) second_reason false
    ≡ ok updated_again
unfolding baseline_program accepted updated_again
updated_again_ok = refl

-- Both entries keep their owner.
owners_stay : map (λ e. e.owner) updated_again.document.entries ≡ text "core" ∷ text "core" ∷ []
unfolding baseline_program accepted updated_again
owners_stay = refl

update-IsJustified_example :
    All
      (λ e. (is_kept accepted.document e || is_annotated second_reason e) ≡ true)
      updated_again.document.entries
    × All
        (λ e.
          (may_change test_platform updated_again.findings false e
            || any (λ e'. same_annotation e e') updated_again.document.entries)
          ≡ true)
        accepted.document.entries
update-IsJustified_example =
    update-IsJustified test_platform accepted.document (finding (text "/work/a.go") ∷ [])
      second_reason false updated_again_ok

abbrev dated_entry : Entry
dated_entry = record {
  fingerprint = [];
  check_id = check_isp_fat_interface;
  path = text "store.go";
  subject = text "Store";
  reason = text "reviewed with the owners";
  owner = [];
  expires = text "2026-02-28";
}

is_expired-day_number_example : is_expired (text "2026-03-01") dated_entry ≡ (
    not (length dated_entry.expires == 0)
    && ltb (day_number dated_entry.expires) (day_number (text "2026-03-01")))
unfolding baseline_program
is_expired-day_number_example = is_expired-day_number (text "2026-03-01") dated_entry refl refl
