-- ===== src/Config/Discovery.antt =====
-- internal/analyzer/control.go: FindConfig, ConfigFileInDir and FindConfigForTargets, on a system
-- whose paths are separated by slashes.
use solidify.Base.{
  ◌==◌, if◌then◌else◌, length, keep, Text, text, text_eq, Map, insert, ◌>>=◌, Result, sort_by,
  trim_right, trim_space, without_prefix, ℕ, zero, suc, Bool, true, false, not, Option, none, some,
  List, [], ◌∷◌, ◌++◌, map, ok, err,
}
use solidify.Paths.Clean.{clean, dot, slash}

-- What the discovery asks of the system: is there something at the path, os.Stat, and is it a
-- directory, and filepath.Abs, none where it returns an error.
pub record FileSystem : Type 0 where
  pub stat : Text → Option Bool
  pub abs : Text → Option Text

-- The bytes up to and with the last slash.
unfoldable pub through_slash : Text → Text
through_slash [] = []
through_slash (c ∷ s) =
    let rest = through_slash s in
    if c == 47 then c ∷ rest else elim rest [ [] ↦ [] | d ∷ r ↦ c ∷ d ∷ r ]

-- filepath.Dir
unfoldable pub dir_of : Text → Text
dir_of p = clean (through_slash p)

-- The bytes after the last slash.
unfoldable pub after_slash : Text → Text
after_slash s = without_prefix s (through_slash s)

abbrev or_text : Text → Text → Text
or_text [] s = s
or_text (c ∷ t) s = c ∷ t

-- filepath.Base
unfoldable pub base_of : Text → Text
base_of p = elim p [
  | [] ↦ dot
  | c ∷ s ↦ or_text (after_slash (trim_right (λ c. c == 47) (c ∷ s))) slash
]

-- filepath.Join of two elements: what comes first and is not empty begins the path.
unfoldable pub join_path : Text → Text → Text
join_path [] [] = []
join_path [] (c ∷ name) = clean (c ∷ name)
join_path (d ∷ dir) name = clean ((d ∷ dir) ++ (slash ++ name))

abbrev pub config_file_names : List Text
config_file_names = text ".solidlint.yml" ∷ text ".solidify.yml" ∷ []

-- `out_of_fuel` is the model's own; FindConfig has no bound.
pub data DiscoveryError : Type 0 where
  ambiguous : Text → DiscoveryError
  different_scopes : List Text → List Text → DiscoveryError
  out_of_fuel : DiscoveryError

abbrev is_file : FileSystem → Text → Bool
is_file fs path = elim (fs.stat path) [ none ↦ false | some is_dir ↦ not is_dir ]

-- The loop over the names.
abbrev pub candidates : FileSystem → Text → List Text → List Text
candidates fs dir names = keep (is_file fs) (map (join_path dir) names)

-- `""` stands for no file.
abbrev pub only_file : Text → List Text → Result DiscoveryError Text
only_file dir [] = ok []
only_file dir (found ∷ []) = ok found
only_file dir (found ∷ other ∷ more) = err (ambiguous dir)

unfoldable pub config_file_in_dir : FileSystem → Text → Result DiscoveryError Text
config_file_in_dir fs dir = only_file dir (candidates fs dir config_file_names)

unfoldable pub config_search_start : FileSystem → Text → Text
config_search_start fs target =
    let cleaned = clean target in
    let start = if text_eq (base_of cleaned) (text "...") then dir_of cleaned else cleaned in
    let found = if is_file fs start then dir_of start else start in
    if length (trim_space target) == 0 then dot else found

-- What a round of the loop returns, or `next` of the parent.
abbrev pub found_or :
    Result DiscoveryError Text → Result DiscoveryError Text → Result DiscoveryError Text
found_or (err e) next = err e
found_or (ok (c ∷ found)) next = ok (c ∷ found)
found_or (ok []) next = next

-- The loop from a directory upwards.
unfoldable pub find_up : FileSystem → ℕ → Text → Result DiscoveryError Text
find_up fs zero dir = err out_of_fuel
find_up fs (suc fuel) dir =
    let parent = dir_of dir in
    let rest = find_up fs fuel parent in
    found_or (config_file_in_dir fs dir) (if text_eq parent dir then ok [] else rest)

abbrev pub or_start : Option Text → Text → Text
or_start none start = start
or_start (some absolute) start = absolute

unfoldable pub find_config : FileSystem → Text → Result DiscoveryError Text
find_config fs target =
    let start = config_search_start fs target in
    let dir = or_start (fs.abs start) start in find_up fs (suc (suc (length dir))) dir

-- The loop over the targets: the set of files, and the targets without one.
unfoldable pub scan_targets :
    FileSystem → List Text → Map Bool → List Text → Result DiscoveryError (Map Bool × List Text)
scan_targets fs [] configs without = ok (configs, without)
scan_targets fs (target ∷ targets) configs without = elim (find_config fs target) [
  | err e ↦ err e
  | ok [] ↦ scan_targets fs targets configs (without ++ target ∷ [])
  | ok (c ∷ path) ↦ scan_targets fs targets (insert (c ∷ path) true configs) without
]

abbrev pub by_name : List Text → List Text
by_name l = sort_by (λ name. name) l

-- What is returned for the files found and the targets without one.
unfoldable pub one_scope : Map Bool → List Text → Result DiscoveryError Text
one_scope [] without = ok []
one_scope ((path, _) ∷ []) [] = ok path
one_scope configs without =
    err (different_scopes (by_name (map (λ e. e.0) configs)) (by_name without))

unfoldable pub find_config_for_targets : FileSystem → List Text → Result DiscoveryError Text
find_config_for_targets fs targets = do
  (configs, without) ← scan_targets fs targets [] []
  one_scope configs without
