-- ===== src/Run/Covered.antt =====
-- internal/analyzer/stats.go: what a snapshot says of every check, and what the filter of analysis
-- modes makes of it.
use mathlib.Core.List.{map-append}
use mathlib.Core.List.Perm
use solidify.Base.{
  ◌==◌, keep, any, all, All, All-map, Text, text, text_eq, flag, listed, keep-perm, Perm, ℕ, ◌≡◌,
  refl, ◌∙◌, subst, Bool, true, false, not, ◌&&◌, ◌||◌, Option, some, List, [], ◌∷◌, ◌++◌, map,
  map-append, arith,
}
use solidify.Ids.{CheckId}
use solidify.Registry.Check.{
  Check, SyntaxSupport, undeclared, equivalent, conservative, unavailable, supports,
}
use solidify.Registry.Table.{check_registry}
use solidify.Registry.Index.{check_id, check_metadata, registered_check_ids}
use solidify.Registry.Selection.{selected_check_ids}
use solidify.Config.Settings.{Config}
use solidify.Issues.Issue.{Issue}
use solidify.Paths.Clean.{clean}
use solidify.Plan.{ExecutionPlan, includes, plan_check_ids}
use solidify.Run.Jobs.{Package}
use solidify.Run.Owners.{
  filter_mode_unsupported, issue_owner_index, filter_mode_unsupported-survives, is_unavailable,
  survives, first_with_file, has_file, complete_or_false,
}
use solidify.Run.Statistics.{RunStats}
use solidify.Run.Coverage.{
  is_type_complete, package_type_coverage, missing_architecture_requirement, incomplete_coverage,
  check_coverage_for, snapshot, is_nil,
}

package_type_coverage-incomplete :
    (pkgs : List (Option Package))
    → ((package_type_coverage pkgs).1 == 0) ≡ all is_type_complete pkgs
unfolding package_type_coverage
package_type_coverage-incomplete [] = refl
package_type_coverage-incomplete (pkg ∷ pkgs) =
    ground (arith, package_type_coverage-incomplete pkgs)

incomplete_not_complete :
    (id : CheckId) (syntax : SyntaxSupport) (n : ℕ)
    → text_eq (incomplete_coverage id syntax n).status (text "complete") ≡ false
unfolding incomplete_coverage text_eq
incomplete_not_complete id equivalent n = refl
incomplete_not_complete id conservative n = refl
incomplete_not_complete id unavailable n = ground arith
incomplete_not_complete id undeclared n = refl

-- A check's coverage is reported as complete exactly when the plan's surface supports it, the plan
-- includes it, its architecture settings are there, and there are packages all of which have
-- complete type information.
check_coverage_for_complete :
    (c : Check) (plan : ExecutionPlan) (cfg : Config) (pkgs : List (Option Package))
    → text_eq (check_coverage_for c plan cfg pkgs).status (text "complete") ≡ (
        supports c.surfaces plan.surface
        && (includes plan c.id
            && (is_nil (missing_architecture_requirement c.id cfg)
                && (not (is_nil pkgs) && all is_type_complete pkgs))))
unfolding check_coverage_for text_eq
check_coverage_for_complete c plan cfg pkgs = ground (
  arith,
  package_type_coverage-incomplete pkgs,
  incomplete_not_complete c.id c.syntax (package_type_coverage pkgs).0,
)

incomplete_coverage_id :
    (id : CheckId) (syntax : SyntaxSupport) (n : ℕ) → (incomplete_coverage id syntax n).check ≡ id
unfolding incomplete_coverage
incomplete_coverage_id id equivalent n = refl
incomplete_coverage_id id conservative n = refl
incomplete_coverage_id id unavailable n = ground arith
incomplete_coverage_id id undeclared n = refl

check_coverage_for_id :
    (c : Check) (plan : ExecutionPlan) (cfg : Config) (pkgs : List (Option Package))
    → (check_coverage_for c plan cfg pkgs).check ≡ c.id
unfolding check_coverage_for
check_coverage_for_id c plan cfg pkgs =
    ground (arith, incomplete_coverage_id c.id c.syntax (package_type_coverage pkgs).0)

coverage_ids :
    (plan : ExecutionPlan) (cfg : Config) (pkgs : List (Option Package)) (checks : List Check)
    → map (λ e. e.check) (map (λ c. check_coverage_for c plan cfg pkgs) checks)
      ≡ map check_id checks
coverage_ids plan cfg pkgs [] = refl
coverage_ids plan cfg pkgs (c ∷ checks) =
    ground (arith, check_coverage_for_id c plan cfg pkgs, coverage_ids plan cfg pkgs checks)

-- A snapshot tells of every registered check: each is selected or skipped and none is both, and the
-- coverage has an entry for each, in the order of the registry.
snapshot-partition :
    (s : RunStats) (pkgs : List (Option Package))
    → Perm
        ((snapshot s pkgs).selected_checks ++ (snapshot s pkgs).skipped_checks)
        registered_check_ids
      × (map (λ e. e.check) (snapshot s pkgs).check_coverage ≡ registered_check_ids)
unfolding snapshot plan_check_ids selected_check_ids registered_check_ids
snapshot-partition s pkgs = (
  subst (λ l. Perm l registered_check_ids) (map-append check_id _ _)
      (Perm.map check_id (keep-perm (λ c. flag c.id s.plan.selected) check_registry)),
  coverage_ids s.plan s.config pkgs check_registry,
)

-- The statuses of a check that keeps its findings.
abbrev pub kept_statuses : List Text
kept_statuses = text "complete" ∷ text "syntax-equivalent" ∷ text "conservative" ∷ []

first_with_file_complete :
    (k : Text) (pkgs : List Package)
    → all is_type_complete (map some pkgs) ≡ true
    → any (has_file k) pkgs ≡ true
    → complete_or_false (first_with_file k pkgs) ≡ true
first_with_file_complete k [] h f = ground arith
first_with_file_complete k (pkg ∷ pkgs) h f = ground (arith, first_with_file_complete k pkgs)

incomplete_kept :
    (id : CheckId) (syntax : SyntaxSupport) (n : ℕ)
    → listed (incomplete_coverage id syntax n).status kept_statuses ≡ true
    → is_unavailable syntax ≡ false
unfolding incomplete_coverage text_eq listed
incomplete_kept id equivalent n h = refl
incomplete_kept id conservative n h = refl
incomplete_kept id unavailable n h = ground arith
incomplete_kept id undeclared n h = refl

kept_typed :
    (c : Check) (plan : ExecutionPlan) (cfg : Config) (pkgs : List (Option Package))
    → listed (check_coverage_for c plan cfg pkgs).status kept_statuses ≡ true
    → (not (is_unavailable c.syntax) || all is_type_complete pkgs) ≡ true
unfolding check_coverage_for text_eq listed
kept_typed c plan cfg pkgs h = ground (
  arith,
  package_type_coverage-incomplete pkgs,
  incomplete_kept c.id c.syntax (package_type_coverage pkgs).0,
)

kept_survives :
    (c : Check) (plan : ExecutionPlan) (cfg : Config) (pkgs : List Package) (i : Issue)
    → check_metadata i.check ≡ some c
    → listed (check_coverage_for c plan cfg (map some pkgs)).status kept_statuses ≡ true
    → any (has_file (clean i.pos.filename)) pkgs ≡ true
    → survives pkgs (text "auto") i ≡ true
unfolding text_eq
kept_survives c plan cfg pkgs i e h f = ground (
  arith,
  e,
  kept_typed c plan cfg (map some pkgs) h,
  first_with_file_complete (clean i.pos.filename) pkgs,
)

keep-All {ℓ} : {A : Type ℓ} (p : A → Bool) (l : List A) → All (λ a. p a ≡ true) l → keep p l ≡ l
keep-All p [] h = refl
keep-All p (a ∷ l) h = ground (arith, h.0, keep-All p l h.1)

-- In auto mode the filter drops no finding of a check whose coverage is reported as complete,
-- syntax-equivalent or conservative, if each finding's file belongs to one of the packages.
pub check_coverage_for-survives :
    (c : Check) (plan : ExecutionPlan) (cfg : Config) (pkgs : List Package) (issues : List Issue)
    → listed (check_coverage_for c plan cfg (map some pkgs)).status kept_statuses ≡ true
    → All
        (λ i.
          (check_metadata i.check ≡ some c) × (any (has_file (clean i.pos.filename)) pkgs ≡ true))
        issues
    → filter_mode_unsupported issues (issue_owner_index pkgs) (text "auto") ≡ issues
check_coverage_for-survives c plan cfg pkgs issues h found =
    filter_mode_unsupported-survives issues pkgs (text "auto")
    ∙ keep-All (survives pkgs (text "auto")) issues
        (All-map _ _ issues (λ i (e, f). kept_survives c plan cfg pkgs i e h f) found)
