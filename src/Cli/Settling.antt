-- ===== src/Cli/Settling.antt =====
-- internal/cli/commands.go: the baseline that `init` writes is the one that `diff` reads.
use solidify.Base.{
  ◌==◌, if◌then◌else◌, Option-cases, length, Text, text, text_eq, is_ok, is_ok-ok, Result-cases,
  Result, insert_sorted, sort_by, IsSortedBy, ℕ, ◌≡◌, refl, sym, ap, ◌∙◌, subst, inl, inr, true,
  false, not, ◌||◌, Option, none, some, List, [], ◌∷◌, arith, ok, err,
}
use solidify.Issues.Issue.{Issue}
use solidify.Issues.Finalize.{finalize_issues}
use solidify.Baseline.Document.{current, load, Document, version, validate_document, sort_entries}
use solidify.Baseline.Update.{DiffResult, Updated, UpdateError, diff, update}
use solidify.Baseline.Cycle.{UpdateFacts, update-inv, update-accepts}
use solidify.Baseline.Settled.{update-settles}
use solidify.Cli.Options.{CheckOptions}
use solidify.Cli.Policy.{resolve_check_policy}
use solidify.Cli.Reported.{execute_analysis-IsFinal}
use solidify.Cli.Commands.{
  print_code, diff_output, load_document, execute_analysis, System, write_document, no_document,
  annotation_of,
}
use solidify.Cli.Dispatch.{
  render_baseline_diff, finish_update, change_baseline, baseline_operation, baseline_on,
}

module _ {ℓ} {A : Type ℓ} (key : A → Text) where
  insert_sorted-sorted :
      (a : A) (l : List A) → IsSortedBy key (a ∷ l) → insert_sorted key a l ≡ a ∷ l
  unfolding insert_sorted
  insert_sorted-sorted a [] h = refl
  insert_sorted-sorted a (b ∷ l) h = rw (h.0.0) refl

  -- Sorting what is sorted changes nothing.
  sort_by-sorted : (l : List A) → IsSortedBy key l → sort_by key l ≡ l
  unfolding sort_by
  sort_by-sorted [] h = refl
  sort_by-sorted (a ∷ l) h = rw (sort_by-sorted l h.1) (insert_sorted-sorted a l h)

module _ {Disk : Type 0} (s : System Disk) where
  -- What is saved in the current version, valid and sorted, decodes to itself.
  abbrev pub DecodesSaved : Type 0
  DecodesSaved =
      (path : Text) (d : Document) (disk disk' : Disk)
      → d.version ≡ version
      → is_ok (validate_document d) ≡ true
      → IsSortedBy (λ e. e.fingerprint) d.entries
      → s.save path d disk ≡ some disk'
      → s.decode_document path disk' ≡ some (current d)

  -- Loading validates and sorts what needs neither.
  load_document-saved :
      (path : Text) (d : Document) (disk disk' : Disk)
      → DecodesSaved
      → d.version ≡ version
      → is_ok (validate_document d) ≡ true
      → IsSortedBy (λ e. e.fingerprint) d.entries
      → s.save path d disk ≡ some disk'
      → load_document s path disk' ≡ some d
  unfolding load_document load
  load_document-saved path d disk disk' law newest valid sorted saved =
      let (_, checked) = is_ok-ok (validate_document d) valid in
      ground (
        arith,
        checked,
        law path d disk disk' newest valid sorted saved,
        sort_by-sorted (λ e. e.fingerprint) d.entries sorted,
      )

  abbrev saved_if_valid : Text → Disk → Document → Option Disk
  saved_if_valid path disk d = elim (validate_document d) [
    | ok _ ↦ s.save path d disk
    | err _ ↦ none
  ]

  written_document :
      (d : Document)
      → is_ok (validate_document d) ≡ true
      → d.version ≡ version
      → IsSortedBy (λ e. e.fingerprint) d.entries
      → (path : Text) (disk : Disk) → write_document s path d disk ≡ s.save path d disk
  unfolding write_document
  written_document d valid newest sorted path disk =
      let same : (record { version = version; entries = sort_entries d.entries }) ≡ d =
        rw (sort_by-sorted (λ e. e.fingerprint) d.entries sorted, sym newest) refl in
      let (_, checked) = is_ok-ok (validate_document d) valid in
      ap (saved_if_valid path disk) same ∙ ground (arith, checked)

  -- A baseline command that succeeds with an update has saved the update's document.
  finish_update-saved :
      (o : CheckOptions) (r : Result UpdateError Updated) (disk : Disk) {disk' : Disk}
      → finish_update s o r disk ≡ (0, disk')
      → (u : Updated) × (r ≡ ok u) × (write_document s o.baseline_path u.document disk ≡ some disk')
  unfolding finish_update
  finish_update-saved o (err x) disk h = absurd (ground arith)
  finish_update-saved o (ok u) disk {disk'} h =
      elim (Option-cases (write_document s o.baseline_path u.document disk)) [
        | inl e ↦ absurd (ground (arith, e))
        | inr (d, e) ↦ (u, refl, ground (arith, e))
      ]

  -- The code of a difference that is empty: that of printing it.
  abbrev pub nothing_changed : Text → ℕ → ℕ
  nothing_changed format live =
      if text_eq format (text "json") then print_code s (diff_output [] [] live) else 0

  settled-code :
      (r : DiffResult) (format : Text)
      → r.added ≡ []
      → r.stale ≡ []
      → render_baseline_diff s r format (not (length r.added == 0) || not (length r.stale == 0))
        ≡ nothing_changed format (length r.live)
  unfolding render_baseline_diff
  settled-code r format a t = ground (arith, a, t)

  baseline_operation-settles :
      (o : CheckOptions) (issues : List Issue) (disk : Disk) {disk' : Disk}
      → DecodesSaved
      → finalize_issues s.analyzer.platform issues (text "workspace") ≡ ok issues
      → baseline_operation s (text "init") o issues disk ≡ (0, disk')
      → (live : ℕ) × (baseline_operation s (text "diff") o issues disk'
          ≡ (nothing_changed o.format live, disk'))
  unfolding baseline_operation text_eq change_baseline UpdateFacts
  baseline_operation-settles o issues disk {disk'} law final h =
      let p = s.analyzer.platform in
      let (u, updated, wrote) =
        finish_update-saved o (update p no_document issues (annotation_of o) true) disk h in
      let (valid, newest, sorted, _) =
        update-accepts p no_document issues (annotation_of o) true updated in
      let (finalized, _, _, _, _, _) =
        update-inv p no_document issues (annotation_of o) true updated in
      let same : u.findings ≡ issues = cc in
      let saved =
        sym (written_document u.document valid newest sorted o.baseline_path disk) ∙ wrote in
      let loaded =
        load_document-saved o.baseline_path u.document disk disk' law newest valid sorted saved in
      let (added, pruned) = update-settles p no_document issues (annotation_of o) true updated in
      let code =
        settled-code (diff p u.document issues) o.format
          (subst (λ l. (diff p u.document l).added ≡ []) same added)
          (subst (λ l. (diff p u.document l).stale ≡ []) same (pruned refl)) in
      (length (diff p u.document issues).live, rw (loaded, code) refl)

  -- After a `baseline init` that exits with 0, on a disk from which a saved baseline decodes to itself,
  -- `baseline diff` with the same options finds nothing added and nothing stale, exits with 0 unless
  -- printing that as JSON fails, and leaves the disk alone.
  pub baseline_on-settles :
      (o : CheckOptions) (disk : Disk) {disk' : Disk}
      → DecodesSaved
      → baseline_on s (text "init") o disk ≡ (0, disk')
      → (live : ℕ) × (baseline_on s (text "diff") o disk' ≡ (nothing_changed o.format live, disk'))
  unfolding baseline_on
  baseline_on-settles o disk {disk'} law h =
      elim (Result-cases (resolve_check_policy s.sources o s.tool_version)) [
        | inr (_, e) ↦ absurd (ground (arith, h, e))
        | inl (policy, e) ↦ elim (Option-cases (execute_analysis s policy)) [
          | inl a ↦ absurd (ground (arith, h, e, a))
          | inr (r, a) ↦
              let final = execute_analysis-IsFinal s policy (text "workspace") {r = r} a in
              let some_path : (length o.baseline_path == 0) ≡ false = ground (arith, h) in
              let began : baseline_operation s (text "init") o r.issues disk ≡ (0, disk') =
                ground (arith, h, e, a, some_path) in
              let (live, settled) = baseline_operation-settles o r.issues disk law final began in
              (live, rw (e, a, some_path) settled)
        ]
      ]
