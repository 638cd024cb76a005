-- ===== src/Config/Ascent.antt =====
-- internal/analyzer/control.go: the way up of FindConfig ends. A path is cleaned at each step, and a
-- cleaned path that is neither the root nor the dot is longer than its parent.
use solidify.Base.{
  if_ind, length, Text, text_eq, text_eq_iff, Map, insert, Result-cases, Result, has_prefix, ℕ,
  zero, suc, ◌≤◌, ◌<◌, ◌≡◌, refl, ◌⊎◌, inl, inr, Bool, true, false, List, [], ◌∷◌, ◌++◌, arith, ok,
  err,
}
use solidify.Paths.Clean.{split_on, join, dot, slash, clean_parts, clean}
use solidify.Paths.Cleaned.{ends_inside, IsCleaned, clean-IsCleaned, length-clean}
use solidify.Config.Discovery.{
  FileSystem, DiscoveryError, out_of_fuel, through_slash, dir_of, config_file_in_dir, find_up,
  find_config, scan_targets, one_scope, find_config_for_targets, found_or, only_file, candidates,
  config_file_names,
}

length-through_slash : (p : Text) → length (through_slash p) ≤ length p
unfolding through_slash
length-through_slash [] = omega arith
length-through_slash (c ∷ p) = ground (arith, length-through_slash p)

through_slash-ends : (p : Text) → ends_inside p ≡ true → length (through_slash p) < length p
unfolding through_slash
through_slash-ends [] h = absurd (ground arith)
through_slash-ends (c ∷ []) h = ground arith
through_slash-ends (c ∷ d ∷ p) h = ground (arith, through_slash-ends (d ∷ p) h)

root_dir : dir_of slash ≡ slash
unfolding dir_of through_slash clean has_prefix split_on clean_parts join
root_dir = refl

single_dir : (c : ℕ) → ends_inside (c ∷ []) ≡ true → dir_of (c ∷ []) ≡ dot
unfolding dir_of through_slash clean has_prefix split_on clean_parts join
single_dir c h = ground arith

-- The parent of a cleaned path is the path itself, or shorter, or the dot.
dir_of-shorter :
    (p : Text) → IsCleaned p → (dir_of p ≡ p) ⊎ ((length (dir_of p) < length p) ⊎ (dir_of p ≡ dot))
unfolding dir_of
dir_of-shorter p (inl e) = inl (rw (e) root_dir)
dir_of-shorter [] (inr h) = absurd (ground arith)
dir_of-shorter (c ∷ []) (inr h) = inr (inr (single_dir c h))
dir_of-shorter (c ∷ d ∷ p) (inr h) = inr (
    inl (omega (arith, through_slash-ends (c ∷ d ∷ p) h, length-clean (through_slash (c ∷ d ∷ p)))))

abbrev pub is_out_of_fuel {ℓ} : {A : Type ℓ} → Result DiscoveryError A → Bool
is_out_of_fuel (err out_of_fuel) = true
is_out_of_fuel _ = false

only_file-finishes : (dir : Text) (l : List Text) → is_out_of_fuel (only_file dir l) ≡ false
only_file-finishes dir [] = refl
only_file-finishes dir (found ∷ []) = refl
only_file-finishes dir (found ∷ other ∷ more) = refl

abbrev Finishes : Result DiscoveryError Text → Type 0
Finishes r = is_out_of_fuel r ≡ false

config_file_in_dir-finishes :
    (fs : FileSystem) (dir : Text) → is_out_of_fuel (config_file_in_dir fs dir) ≡ false
unfolding config_file_in_dir
config_file_in_dir-finishes fs dir = only_file-finishes dir (candidates fs dir config_file_names)

found_or-finishes :
    (r next : Result DiscoveryError Text)
    → is_out_of_fuel r ≡ false
    → is_out_of_fuel next ≡ false
    → is_out_of_fuel (found_or r next) ≡ false
found_or-finishes (err e) next h k = h
found_or-finishes (ok (c ∷ found)) next h k = refl
found_or-finishes (ok []) next h k = k

dir_of-IsCleaned : (p : Text) → IsCleaned (dir_of p)
unfolding dir_of
dir_of-IsCleaned p = clean-IsCleaned (through_slash p)

IsCleaned-length : (p : Text) → IsCleaned p → 1 ≤ length p
IsCleaned-length p (inl e) = rw (e) (omega arith)
IsCleaned-length [] (inr h) = absurd (ground arith)
IsCleaned-length (c ∷ p) (inr h) = omega arith

dot_dir : dir_of dot ≡ dot
unfolding dir_of through_slash clean has_prefix split_on clean_parts join
dot_dir = refl

find_up-dot : (fs : FileSystem) (fuel : ℕ) → 1 ≤ fuel → is_out_of_fuel (find_up fs fuel dot) ≡ false
unfolding find_up
find_up-dot fs zero h = absurd (omega arith)
find_up-dot fs (suc fuel) h =
    found_or-finishes (config_file_in_dir fs dot) _ (config_file_in_dir-finishes fs dot) (
      if_ind Finishes (text_eq (dir_of dot) dot) (ok []) (find_up fs fuel (dir_of dot)) (λ _. refl)
        (λ other. absurd (ground (arith, other, text_eq_iff (dir_of dot) dot, dot_dir))))

find_up-finishes :
    (fs : FileSystem) (fuel : ℕ) (dir : Text)
    → IsCleaned dir
    → length dir < fuel
    → is_out_of_fuel (find_up fs fuel dir) ≡ false
unfolding find_up
find_up-finishes fs zero dir h n = absurd (omega arith)
find_up-finishes fs (suc fuel) dir h n =
    found_or-finishes (config_file_in_dir fs dir) _ (config_file_in_dir-finishes fs dir) (
      if_ind Finishes (text_eq (dir_of dir) dir) (ok []) (find_up fs fuel (dir_of dir)) (λ _. refl)
        (λ other. elim (dir_of-shorter dir h) [
          | inl e ↦ absurd (ground (arith, other, text_eq_iff (dir_of dir) dir, e))
          | inr (inl below) ↦
              find_up-finishes fs fuel (dir_of dir) (dir_of-IsCleaned dir) (omega arith)
          | inr (inr e) ↦ rw (e) (find_up-dot fs fuel (omega (arith, IsCleaned-length dir h, n)))
        ]))

-- A round from any path, where the rest finishes from its parent.
find_up-step :
    (fs : FileSystem) (fuel : ℕ) (dir : Text)
    → Finishes (find_up fs fuel (dir_of dir))
    → Finishes (find_up fs (suc fuel) dir)
unfolding find_up
find_up-step fs fuel dir h =
    found_or-finishes (config_file_in_dir fs dir) _ (config_file_in_dir-finishes fs dir) (
      if_ind Finishes (text_eq (dir_of dir) dir) (ok []) (find_up fs fuel (dir_of dir)) (λ _. refl)
        (λ _. h))

empty_dir : dir_of [] ≡ dot
unfolding dir_of through_slash clean has_prefix split_on clean_parts join
empty_dir = refl

length-dir_of : (c : ℕ) (p : Text) → length (dir_of (c ∷ p)) < suc (length (c ∷ p))
unfolding dir_of
length-dir_of c p =
    omega (arith, length-clean (through_slash (c ∷ p)), length-through_slash (c ∷ p))

-- Whatever the path, its parent is cleaned and hardly longer, so two more rounds are enough.
find_up-enough : (fs : FileSystem) (dir : Text) → Finishes (find_up fs (suc (suc (length dir))) dir)
find_up-enough fs [] = find_up-step fs 1 [] (rw (empty_dir) (find_up-dot fs 1 (omega arith)))
find_up-enough fs (c ∷ p) = find_up-step fs (suc (length (c ∷ p))) (c ∷ p) (
    find_up-finishes fs (suc (length (c ∷ p))) (dir_of (c ∷ p)) (dir_of-IsCleaned (c ∷ p))
      (length-dir_of c p))

find_config-Finishes : (fs : FileSystem) (target : Text) → Finishes (find_config fs target)
unfolding find_config
find_config-Finishes fs target = find_up-enough fs _

scan_targets-finishes :
    (fs : FileSystem) (targets : List Text) (configs : Map Bool) (without : List Text)
    → is_out_of_fuel (scan_targets fs targets configs without) ≡ false
unfolding scan_targets
scan_targets-finishes fs [] configs without = refl
scan_targets-finishes fs (target ∷ targets) configs without =
    elim (Result-cases (find_config fs target)) [
      | inl ([], e) ↦
          ground (arith, e, scan_targets-finishes fs targets configs (without ++ target ∷ []))
      | inl (c ∷ path, e) ↦
          ground
            (arith, e, scan_targets-finishes fs targets (insert (c ∷ path) true configs) without)
      | inr (x, e) ↦ ground (arith, e, find_config-Finishes fs target)
    ]

one_scope-Finishes :
    (configs : Map Bool) (without : List Text) → Finishes (one_scope configs without)
unfolding one_scope
one_scope-Finishes [] without = refl
one_scope-Finishes ((path, b) ∷ []) [] = refl
one_scope-Finishes ((path, b) ∷ []) (t ∷ without) = refl
one_scope-Finishes ((path, b) ∷ c ∷ configs) without = refl

-- The discovery of a configuration file ends for any targets in any file system: two rounds more than the starting
-- directory has bytes are always enough to reach a file or the top.
pub find_config_for_targets-finishes :
    (fs : FileSystem) (targets : List Text)
    → is_out_of_fuel (find_config_for_targets fs targets) ≡ false
unfolding find_config_for_targets
find_config_for_targets-finishes fs targets = elim (Result-cases (scan_targets fs targets [] [])) [
  | inl ((configs, without), e) ↦ ground (arith, e, one_scope-Finishes configs without)
  | inr (x, e) ↦ ground (arith, e, scan_targets-finishes fs targets [] [])
]
