-- ===== src/Cli/Dispatch.antt =====
-- internal/cli/commands.go and run.go: the commands on baselines, on the metadata of checks and on
-- configuration files, and the choice of a command.
use solidify.Base.{
  ltb, ◌==◌, if◌then◌else◌, length, Text, text, text_eq, listed, Result, has_prefix, ℕ, Bool, true,
  false, not, ◌&&◌, ◌||◌, Option, none, some, List, [], ◌∷◌, map, ok, err,
}
use solidify.Registry.Index.{check_metadata, registered_check_ids}
use solidify.Issues.Issue.{Issue, fingerprint}
use solidify.Config.Discovery.{config_file_in_dir, config_file_names, base_of}
use solidify.Baseline.Document.{Document}
use solidify.Baseline.Update.{DiffResult, Updated, UpdateError, diff, update, prune}
use solidify.Cli.Options.{CheckOptions, parse_check_options}
use solidify.Cli.Policy.{resolve_check_policy, load_path}
use solidify.Cli.Commands.{
  System, diff_output, checks_output, init_yaml, schema, print_code, no_document, annotation_of,
  load_document, write_document, execute_analysis, run_check_command, run_stats_command,
}

module _ {Disk : Type 0} (s : System Disk) where
  unfoldable pub render_baseline_diff : DiffResult → Text → Bool → ℕ
  render_baseline_diff d format fails =
      let added = map (fingerprint s.analyzer.platform) d.added in
      let stale = map (λ e. e.fingerprint) d.stale in
      let code =
        if text_eq format (text "json")
        then print_code s (diff_output added stale (length d.live))
        else 0 in
      if not (code == 0) then code else if fails then 1 else 0

  -- An update's document is written and its difference rendered.
  unfoldable pub finish_update : CheckOptions → Result UpdateError Updated → Disk → ℕ × Disk
  finish_update o (err _) disk = (2, disk)
  finish_update o (ok u) disk = elim (write_document s o.baseline_path u.document disk) [
    | none ↦ (2, disk)
    | some disk' ↦ (render_baseline_diff u.difference o.format false, disk')
  ]

  -- The operations on a document that was read.
  unfoldable pub change_baseline : Text → CheckOptions → Document → List Issue → Disk → ℕ × Disk
  change_baseline operation o d issues disk =
      let r = diff s.analyzer.platform d issues in
      let fails = not (length r.added == 0) || not (length r.stale == 0) in
      if text_eq operation (text "diff")
      then (render_baseline_diff r o.format fails, disk)
      else if text_eq operation (text "prune")
      then finish_update o (prune s.analyzer.platform d issues) disk
      else finish_update o (update s.analyzer.platform d issues (annotation_of o) o.baseline_prune)
          disk

  -- Past the analysis.
  unfoldable pub baseline_operation : Text → CheckOptions → List Issue → Disk → ℕ × Disk
  baseline_operation operation o issues disk =
      let init =
        finish_update o (update s.analyzer.platform no_document issues (annotation_of o) true)
          disk in
      let loaded : ℕ × Disk = elim (load_document s o.baseline_path disk) [
        | none ↦ (2, disk)
        | some d ↦ change_baseline operation o d issues disk
      ] in
      if text_eq operation (text "init") then init else loaded

  -- Past the options.
  unfoldable pub baseline_on : Text → CheckOptions → Disk → ℕ × Disk
  baseline_on operation o disk =
      let resolved : ℕ × Disk = elim (resolve_check_policy s.sources o s.tool_version) [
        | err _ ↦ (2, disk)
        | ok policy ↦ elim (execute_analysis s policy) [
          | none ↦ (2, disk)
          | some result ↦ baseline_operation operation o result.issues disk
        ]
      ] in
      if length o.baseline_path == 0 then (2, disk) else resolved

  unfoldable pub run_baseline_command : List Text → Disk → ℕ × Disk
  run_baseline_command [] disk = (2, disk)
  run_baseline_command (operation ∷ args) disk =
      let known : ℕ × Disk = elim (parse_check_options s.parse_flags args) [
        | err _ ↦ (2, disk)
        | ok o ↦ baseline_on operation o disk
      ] in
      if listed operation (text "init" ∷ text "diff" ∷ text "update" ∷ text "prune" ∷ [])
      then known
      else (2, disk)

  -- parseMetadataFormat, given what the flag package makes of the arguments.
  unfoldable pub metadata_format : List Text → Option Text
  metadata_format args = elim (s.parse_format args) [
    | none ↦ none
    | some (format, left) ↦
        if left == 0 && (text_eq format (text "text") || text_eq format (text "json"))
        then some format
        else none
  ]

  -- What is described is printed as JSON, or as text, where an error passes unnoticed.
  abbrev pub described : List Text → List Text → ℕ
  described args ids = elim (metadata_format args) [
    | none ↦ 2
    | some format ↦ if text_eq format (text "json") then print_code s (checks_output ids) else 0
  ]

  unfoldable pub explain_check : List Text → ℕ
  explain_check [] = 2
  explain_check (id ∷ args) = elim (metadata_format args) [
    | none ↦ 2
    | some _ ↦ elim (check_metadata id) [ none ↦ 2 | some _ ↦ described args (id ∷ []) ]
  ]

  unfoldable pub run_checks_command : List Text → ℕ
  run_checks_command [] = 2
  run_checks_command (command ∷ args) =
      if text_eq command (text "list")
      then described args registered_check_ids
      else if text_eq command (text "explain")
      then explain_check args
      else 2

  abbrev last_name : List Text → Text
  last_name [] = []
  last_name (name ∷ []) = name
  last_name (name ∷ next ∷ names) = last_name (next ∷ names)

  -- `cwd` is the working directory, "." where it is not known.
  unfoldable pub default_config_path : Text → Option Text
  default_config_path cwd = elim (config_file_in_dir s.sources.files cwd) [
    | err _ ↦ none
    | ok [] ↦ some (last_name config_file_names)
    | ok (c ∷ path) ↦ some (base_of (c ∷ path))
  ]

  abbrev pub or_given : Text → List Text → Text
  or_given path [] = path
  or_given path (given ∷ _) = given

  -- The command past its name.
  unfoldable pub validate_file : Text → List Text → ℕ
  validate_file cwd args = elim (default_config_path cwd) [
    | none ↦ 2
    | some path ↦ elim (load_path s.sources (or_given path args)) [ ok _ ↦ 0 | err _ ↦ 2 ]
  ]

  abbrev no_arguments : List Text → Bool
  no_arguments [] = true
  no_arguments (arg ∷ args) = false

  abbrev schema_arguments : List Text → Bool
  schema_arguments [] = true
  schema_arguments (arg ∷ []) = text_eq arg (text "-format=json")
  schema_arguments _ = false

  unfoldable pub run_config_command : Text → List Text → ℕ
  run_config_command cwd [] = 2
  run_config_command cwd (command ∷ args) =
      if text_eq command (text "init")
      then (if no_arguments args then print_code s init_yaml else 2)
      else if text_eq command (text "validate")
      then (if ltb 1 (length args) then 2 else validate_file cwd args)
      else if text_eq command (text "schema")
      then (if schema_arguments args then print_code s schema else 2)
      else 2

  abbrev is_help : List Text → Bool
  is_help (arg ∷ []) = listed arg (text "help" ∷ text "--help" ∷ text "-h" ∷ [])
  is_help _ = false

  -- A flag or nothing first makes the whole a check, and so does an unknown command.
  unfoldable pub dispatch : Text → List Text → Disk → ℕ × Disk
  dispatch cwd [] disk = run_check_command s [] disk
  dispatch cwd (command ∷ args) disk =
      if has_prefix command (text "-")
      then run_check_command s (command ∷ args) disk
      else if text_eq command (text "check")
      then run_check_command s args disk
      else if text_eq command (text "checks")
      then (run_checks_command args, disk)
      else if text_eq command (text "config")
      then (run_config_command cwd args, disk)
      else if text_eq command (text "baseline")
      then run_baseline_command args disk
      else if text_eq command (text "stats")
      then (run_stats_command s args, disk)
      else run_check_command s (command ∷ args) disk

  -- Run
  unfoldable pub run : Text → List Text → Disk → ℕ × Disk
  run cwd args disk = if is_help args then (0, disk) else dispatch cwd args disk
