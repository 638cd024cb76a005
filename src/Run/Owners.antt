-- ===== src/Run/Owners.antt =====
-- internal/analyzer/run.go: the package that owns a file, what an analysis mode leaves of the
-- findings, and their order.
use solidify.Base.{
  ltb, ◌==◌, if◌then◌else◌, Bool-cases, is_some, length, keep, any, keep-eq, Text, text, text_eq,
  text_eq-eq, text_lt, Map, lookup, insert, lookup-insert, ◌≡◌, refl, ap, inl, inr, Bool, true,
  false, not, ◌&&◌, ◌||◌, Option, none, some, List, [], ◌∷◌, arith,
}
use solidify.Registry.Check.{SyntaxSupport, unavailable}
use solidify.Registry.Index.{check_metadata}
use solidify.Issues.Issue.{Issue, issue_id}
use solidify.Paths.Clean.{clean}
use solidify.Suppression.Directives.{SourceFile}
use solidify.Run.Jobs.{Package}

-- The inner loop, over the files of one package: a file that is owned keeps its owner.
unfoldable pub own_files : Package → List SourceFile → Map Package → Map Package
own_files pkg [] owners = owners
own_files pkg (f ∷ files) owners =
    let filename = clean f.filename in
    let owners' = if is_some (lookup filename owners) then owners else insert filename pkg owners in
    own_files pkg files owners'

unfoldable pub own_packages : List Package → Map Package → Map Package
own_packages [] owners = owners
own_packages (pkg ∷ pkgs) owners = own_packages pkgs (own_files pkg pkg.files owners)

unfoldable pub issue_owner_index : List Package → Map Package
issue_owner_index pkgs = own_packages pkgs []

abbrev pub complete_or_false : Option Package → Bool
complete_or_false none = false
complete_or_false (some pkg) = pkg.type_complete

unfoldable pub issue_package_type_complete : Issue → Map Package → Bool
issue_package_type_complete i owners = complete_or_false (lookup (clean i.pos.filename) owners)

abbrev pub is_unavailable : SyntaxSupport → Bool
is_unavailable unavailable = true
is_unavailable _ = false

abbrev mode_or_auto : Text → Text
mode_or_auto [] = text "auto"
mode_or_auto mode = mode

-- One round of the loop of filterModeUnsupported: is the finding kept?
unfoldable pub mode_supports : Map Package → Text → Issue → Bool
mode_supports owners mode i = elim (check_metadata i.check) [
  | none ↦ false
  | some metadata ↦
      if text_eq mode (text "syntax") && is_unavailable metadata.syntax
      then false
      else if text_eq mode (text "auto")
          && (is_unavailable metadata.syntax && not (issue_package_type_complete i owners))
      then false
      else true
]

unfoldable pub filter_mode_unsupported : List Issue → Map Package → Text → List Issue
filter_mode_unsupported issues owners mode =
    let mode' = mode_or_auto mode in keep (mode_supports owners mode') issues

-- canonicalRoot's result is given.
unfoldable pub stamp_analysis_roots : List Issue → Text → List Issue
stamp_analysis_roots [] root = []
stamp_analysis_roots (i ∷ issues) root =
    let rest = stamp_analysis_roots issues root in
    let stamped : Issue = record i { analysis_root = root } in
    if length i.analysis_root == 0 then stamped ∷ rest else i ∷ rest

-- The comparison of sortIssues.
unfoldable pub issue_less : Issue → Issue → Bool
issue_less i j =
    if not (text_eq i.pos.filename j.pos.filename)
    then text_lt i.pos.filename j.pos.filename
    else if not (i.pos.line == j.pos.line)
    then ltb i.pos.line j.pos.line
    else if not (i.pos.column == j.pos.column)
    then ltb i.pos.column j.pos.column
    else if not (text_eq (issue_id i) (issue_id j))
    then text_lt (issue_id i) (issue_id j)
    else text_lt i.evidence j.evidence

-- Does the package have the file?
abbrev pub has_file : Text → Package → Bool
has_file k pkg = any (λ f. text_eq (clean f.filename) k) pkg.files

abbrev pub first_with_file : Text → List Package → Option Package
first_with_file k [] = none
first_with_file k (pkg ∷ pkgs) = if has_file k pkg then some pkg else first_with_file k pkgs

abbrev or_else : Option Package → Option Package → Option Package
or_else (some pkg) other = some pkg
or_else none other = other

own_files-lookup :
    (k : Text) (pkg : Package) (files : List SourceFile) (owners : Map Package)
    → lookup k (own_files pkg files owners)
      ≡ or_else
          (lookup k owners)
          (if any (λ f. text_eq (clean f.filename) k) files then some pkg else none)
unfolding own_files
own_files-lookup k pkg [] owners = ground arith
own_files-lookup k pkg (f ∷ files) owners = elim (Bool-cases (text_eq (clean f.filename) k)) [
  | inl e ↦
      let same : lookup (clean f.filename) owners ≡ lookup k owners =
        ap (λ j. lookup j owners) (text_eq-eq (clean f.filename) k e) in
      ground (
        arith,
        e,
        same,
        own_files-lookup k pkg files owners,
        own_files-lookup k pkg files (insert (clean f.filename) pkg owners),
        lookup-insert (clean f.filename) k pkg owners,
      )
  | inr e ↦ ground (
    arith,
    e,
    own_files-lookup k pkg files owners,
    own_files-lookup k pkg files (insert (clean f.filename) pkg owners),
    lookup-insert (clean f.filename) k pkg owners,
  )
]

own_packages-lookup :
    (k : Text) (pkgs : List Package) (owners : Map Package)
    → lookup k (own_packages pkgs owners) ≡ or_else (lookup k owners) (first_with_file k pkgs)
unfolding own_packages
own_packages-lookup k [] owners = ground arith
own_packages-lookup k (pkg ∷ pkgs) owners = ground (
  arith,
  own_packages-lookup k pkgs (own_files pkg pkg.files owners),
  own_files-lookup k pkg pkg.files owners,
)

-- A finding survives in an analysis mode.
abbrev pub survives : List Package → Text → Issue → Bool
survives pkgs mode i = elim (check_metadata i.check) [
  | none ↦ false
  | some metadata ↦
      not (is_unavailable metadata.syntax)
      || (not (text_eq mode (text "syntax"))
          && (not (length mode == 0 || text_eq mode (text "auto"))
              || complete_or_false (first_with_file (clean i.pos.filename) pkgs)))
]

owner_complete :
    (pkgs : List Package) (i : Issue)
    → issue_package_type_complete i (issue_owner_index pkgs)
      ≡ complete_or_false (first_with_file (clean i.pos.filename) pkgs)
unfolding issue_package_type_complete issue_owner_index lookup
owner_complete pkgs i = ap complete_or_false (own_packages-lookup (clean i.pos.filename) pkgs [])

not_auto : (mode : Text) → text_eq mode (text "syntax") ≡ true → text_eq mode (text "auto") ≡ false
unfolding text_eq
not_auto mode h = rw (text_eq-eq mode (text "syntax") h) refl

mode_supports-survives :
    (pkgs : List Package) (mode : Text) (i : Issue)
    → mode_supports (issue_owner_index pkgs) (mode_or_auto mode) i ≡ survives pkgs mode i
unfolding mode_supports text_eq
mode_supports-survives pkgs [] i = ground (arith, owner_complete pkgs i)
mode_supports-survives pkgs (c ∷ mode) i =
    ground (arith, owner_complete pkgs i, not_auto (c ∷ mode))

-- Exactly those findings are left whose check is registered and either works on syntax, or the mode
-- is not syntax and, if it is empty or auto, the first of the packages that has the finding's file
-- is completely typed.
pub filter_mode_unsupported-survives :
    (issues : List Issue) (pkgs : List Package) (mode : Text)
    → filter_mode_unsupported issues (issue_owner_index pkgs) mode
      ≡ keep (survives pkgs mode) issues
unfolding filter_mode_unsupported
filter_mode_unsupported-survives issues pkgs mode =
    keep-eq _ _ issues (mode_supports-survives pkgs mode)
