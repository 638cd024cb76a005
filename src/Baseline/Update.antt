-- ===== src/Baseline/Update.antt =====
-- internal/baseline/baseline.go: Diff, Update, Prune.
use solidify.Base.{
  ◌==◌, if◌then◌else◌, is_some, length, keep, text, Map, lookup, index_by, Result, sort_by,
  trim_space, Bool, true, not, ◌&&◌, ◌||◌, Option, none, some, List, [], ◌++◌, map, ok, err,
}
use solidify.Issues.Issue.{Issue, Platform, fingerprint, issue_path}
use solidify.Issues.Finalize.{IdentityError, finalize_issues}
use solidify.Baseline.Document.{
  Entry, Document, Annotation, version, legacy_version, ReasonError, validate_reason, DocumentError,
  validate_document, sort_entries,
}

pub record DiffResult : Type 0 where
  pub added : List Issue
  pub stale : List Entry
  pub live : List Entry

-- `currentByFingerprint`
abbrev pub by_fingerprint : Platform → List Issue → Map Issue
by_fingerprint p issues = index_by (fingerprint p) (λ i. i) issues []

-- Is the entry's fingerprint one of the current findings'?
abbrev pub is_live : Platform → List Issue → Entry → Bool
is_live p issues e = is_some (lookup e.fingerprint (by_fingerprint p issues))

-- `existing`
abbrev pub existing_entries : Document → Map Entry
existing_entries d = index_by (λ e. e.fingerprint) (λ e. e) d.entries []

abbrev pub is_added : Platform → Document → Issue → Bool
is_added p d i = not (is_some (lookup (fingerprint p i) (existing_entries d)))

unfoldable pub diff : Platform → Document → List Issue → DiffResult
diff p d issues = record {
  added = sort_by (fingerprint p) (keep (is_added p d) issues);
  stale = sort_entries (keep (λ e. not (is_live p issues e)) d.entries);
  live = sort_entries (keep (is_live p issues) d.entries);
}

unfoldable pub entry_for_issue : Platform → Issue → Annotation → Entry
entry_for_issue p i a = record {
  fingerprint = fingerprint p i;
  check_id = i.check;
  path = issue_path i;
  subject = i.subject;
  reason = trim_space a.reason;
  owner = trim_space a.owner;
  expires = trim_space a.expires;
}

-- What becomes of a live entry, given what the map of the findings holds under its fingerprint. An
-- entry without a finding is left alone here: `diff` has put none among the live ones.
unfoldable pub refresh : Platform → Annotation → Option Issue → Entry → Entry
refresh p a none e = e
refresh p a (some i) e =
    if length e.reason == 0
    then entry_for_issue p i a
    else record e { check_id = i.check; path = issue_path i; subject = i.subject }

pub data UpdateError : Type 0 where
  identity : IdentityError → UpdateError
  reason : ReasonError → DiffResult → UpdateError
  invalid : DocumentError → DiffResult → UpdateError

-- The new document and the difference, and the findings, which Go finalizes in place.
pub record Updated : Type 0 where
  pub document : Document
  pub difference : DiffResult
  pub findings : List Issue

abbrev pub requires_reason : Document → DiffResult → Bool
requires_reason d r =
    not (length r.added == 0) || (d.version == legacy_version && not (length r.live == 0))

unfoldable pub updated_entries : Platform → List Issue → Annotation → Bool → DiffResult → List Entry
updated_entries p issues a prune r = sort_entries (
    map (λ e. refresh p a (lookup e.fingerprint (by_fingerprint p issues)) e) r.live
    ++ (map (λ i. entry_for_issue p i a) r.added ++ (if prune then [] else r.stale)))

abbrev finish : Document → DiffResult → List Issue → Result UpdateError Updated
finish d r issues = elim (validate_document d) [
  | err e ↦ err (invalid e r)
  | ok _ ↦ ok (record { document = d; difference = r; findings = issues })
]

-- The rest of Update, on the finalized findings.
unfoldable pub update_finalized :
    Platform → Document → List Issue → Annotation → Bool → Result UpdateError Updated
update_finalized p d issues a prune =
    let r = diff p d issues in
    let new : Document = record {
      version = version;
      entries = updated_entries p issues a prune r;
    } in
    let checked : Result UpdateError Updated = elim (validate_reason a.reason) [
      | err e ↦ err (reason e r)
      | ok _ ↦ finish new r issues
    ] in
    if requires_reason d r then checked else finish new r issues

unfoldable pub update :
    Platform → Document → List Issue → Annotation → Bool → Result UpdateError Updated
update p d issues a prune = elim (finalize_issues p issues (text "workspace")) [
  | err e ↦ err (identity e)
  | ok finalized ↦ update_finalized p d finalized a prune
]

unfoldable pub prune : Platform → Document → List Issue → Result UpdateError Updated
prune p d issues = update p d issues (record { reason = []; owner = []; expires = [] }) true
