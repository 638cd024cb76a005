-- ===== src/Config/Sound.antt =====
-- internal/analyzer/control_yaml.go and control.go: a valid file keeps a configuration valid.
use solidify.Base.{
  map-append, All-and, Bool-cases, Option-cases, All-map, Text, text_eq, text_eq-eq, text_eq_iff,
  text_eq_comm, Map, lookup, insert, listed, listed-append, distinct, index_by, listed-head,
  map_eq-find_key, is_ok, ℤ, ◌≡◌, refl, sym, ◌∙◌, subst, inl, inr, true, false, Option, none, some,
  List, [], ◌∷◌, ◌++◌, map, append-nil, append_assoc, arith,
}
use solidify.Exclude.Glob.{SegmentMatch}
use solidify.Config.Settings.{Config}
use solidify.Config.Thresholds.{
  ThresholdSpec, threshold_registry, spec_name, threshold_spec, effective_thresholds,
  validate_threshold_value, validate_config, apply_threshold_value,
}
use solidify.Config.Lenses.{effective_thresholds-lookup}
use solidify.Config.Validation.{
  IsBetween, IsInRange, check_range-IsBetween, registry_found, validate_config_iff, overridden,
}
use solidify.Config.File.{
  FileConfig, apply_lists, apply_file_thresholds, apply, valid_lookup, apply-effective,
}
use solidify.Config.Yaml.{
  YamlFileConfig, validate_threshold, validate_thresholds, validate_semantic, to_file_config,
  copy_map,
}

modes_kept :
    (cfg : Config) (value : ℤ)
    → map (λ s. (s.set cfg value).analysis_mode) threshold_registry
      ≡ map (λ s. cfg.analysis_mode) threshold_registry
unfolding threshold_registry
modes_kept cfg value = refl

-- Writing a threshold leaves the analysis mode alone.
apply_threshold_value-mode :
    (cfg : Config) (key : Text) (value : ℤ)
    → (apply_threshold_value cfg key value).analysis_mode ≡ cfg.analysis_mode
unfolding apply_threshold_value threshold_spec
apply_threshold_value-mode cfg key value = elim (Option-cases (threshold_spec key)) [
  | inl e ↦ ground (arith, e)
  | inr (s, e) ↦
      let kept : (s.set cfg value).analysis_mode ≡ cfg.analysis_mode =
        map_eq-find_key spec_name (λ t. (t.set cfg value).analysis_mode) (λ t. cfg.analysis_mode)
          key threshold_registry (modes_kept cfg value) e in
      ground (arith, e, kept)
]

apply_file_thresholds-mode :
    (thresholds : Map ℤ) (cfg : Config)
    → (apply_file_thresholds thresholds cfg).analysis_mode ≡ cfg.analysis_mode
unfolding apply_file_thresholds
apply_file_thresholds-mode [] cfg = refl
apply_file_thresholds-mode ((key, value) ∷ thresholds) cfg =
    apply_file_thresholds-mode thresholds (apply_threshold_value cfg key value)
    ∙ apply_threshold_value-mode cfg key value

apply-mode : (c : FileConfig) (cfg : Config) → (apply c cfg).analysis_mode ≡ cfg.analysis_mode
unfolding apply apply_lists
apply-mode c cfg = apply_file_thresholds-mode c.thresholds (apply_lists c cfg)

-- A threshold is still in range when it is overridden by a value in range, if at all.
IsInRange-overridden :
    (cfg cfg' : Config) (s : ThresholdSpec) (o : Option ℤ)
    → threshold_spec s.name ≡ some s
    → lookup s.name (effective_thresholds cfg')
      ≡ overridden o (lookup s.name (effective_thresholds cfg))
    → ((v : ℤ) → o ≡ some v → IsBetween s.minimum s.maximum v)
    → IsInRange cfg s
    → IsInRange cfg' s
IsInRange-overridden cfg cfg' s none found e given old =
    let same : s.get cfg ≡ s.get cfg' = ground (
      arith,
      e,
      found,
      effective_thresholds-lookup cfg s.name,
      effective_thresholds-lookup cfg' s.name,
    ) in
    subst (IsBetween s.minimum s.maximum) same old
IsInRange-overridden cfg cfg' s (some v) found e given old =
    let same : v ≡ s.get cfg' = ground (
      arith,
      e,
      found,
      effective_thresholds-lookup cfg s.name,
      effective_thresholds-lookup cfg' s.name,
    ) in
    subst (IsBetween s.minimum s.maximum) same (given v refl)

validate_threshold-IsBetween :
    (s : ThresholdSpec) (value : ℤ)
    → threshold_spec s.name ≡ some s
    → is_ok (validate_threshold s.name value) ≡ true
    → IsBetween s.minimum s.maximum value
unfolding validate_threshold validate_threshold_value
validate_threshold-IsBetween s value found h =
    check_range-IsBetween s.minimum s.maximum s.name value (ground (arith, found))

validate_thresholds-IsBetween :
    (thresholds : Map ℤ) (s : ThresholdSpec) {v : ℤ}
    → threshold_spec s.name ≡ some s
    → is_ok (validate_thresholds thresholds) ≡ true
    → lookup s.name thresholds ≡ some v
    → IsBetween s.minimum s.maximum v
unfolding validate_thresholds lookup
validate_thresholds-IsBetween [] s found h e = absurd (cc)
validate_thresholds-IsBetween ((key, value) ∷ thresholds) s {v} found h e =
    elim (Bool-cases (text_eq key s.name)) [
      | inl same ↦
          let at : key ≡ s.name = text_eq-eq key s.name same in
          let here : value ≡ v = ground (arith, same, e) in
          let first : is_ok (validate_threshold key value) ≡ true = ground arith in
          subst (IsBetween s.minimum s.maximum) here (
            validate_threshold-IsBetween s value found
              (subst (λ k. is_ok (validate_threshold k value) ≡ true) at first))
      | inr other ↦
          validate_thresholds-IsBetween thresholds s found (ground arith) (ground (arith, other))
    ]

insert-fresh :
    {V : Type 0} (k : Text) (v : V) (m : Map V)
    → listed k (map (λ e. e.0) m) ≡ false
    → insert k v m ≡ m ++ (k, v) ∷ []
unfolding listed insert
insert-fresh k v [] h = refl
insert-fresh k v ((j, w) ∷ m) h = ground (arith, insert-fresh k v m)

listed-before : (k : Text) (l r : List Text) → distinct (l ++ k ∷ r) ≡ true → listed k l ≡ false
unfolding distinct listed
listed-before k [] r h = refl
listed-before k (j ∷ l) r h = ground (
  arith,
  listed-before k l r,
  listed-append j l (k ∷ r),
  listed-head k r,
  text_eq_comm j k,
  text_eq_iff j k,
)

copy_onto :
    {V : Type 0} (m m' : Map V)
    → distinct (map (λ e. e.0) (m' ++ m)) ≡ true
    → index_by (λ e. e.0) (λ e. e.1) m m' ≡ m' ++ m
unfolding index_by
copy_onto [] m' h = sym (append-nil m')
copy_onto ((k, v) ∷ m) m' h =
    let keys : distinct (map (λ e. e.0) m' ++ k ∷ map (λ e. e.0) m) ≡ true =
      subst (λ l. distinct l ≡ true) (map-append (λ e. e.0) m' ((k, v) ∷ m)) h in
    let grown : (m' ++ (k, v) ∷ []) ++ m ≡ m' ++ (k, v) ∷ m = append_assoc m' ((k, v) ∷ []) m in
    rw (insert-fresh k v m' (listed-before k (map (λ e. e.0) m') (map (λ e. e.0) m) keys)) (
      copy_onto m (m' ++ (k, v) ∷ [])
        (subst (λ l. distinct (map (λ e. e.0) l) ≡ true) (sym grown) h)
      ∙ grown)

-- Copying a map without repeated keys changes nothing.
copy_map_lem : {V : Type 0} (m : Map V) → distinct (map (λ e. e.0) m) ≡ true → copy_map m ≡ m
copy_map_lem m h = copy_onto m [] h

validate_semantic-thresholds :
    (g : SegmentMatch) (raw : YamlFileConfig)
    → is_ok (validate_semantic g raw) ≡ true
    → is_ok (validate_thresholds raw.thresholds) ≡ true
unfolding validate_semantic
validate_semantic-thresholds g raw h = ground arith

found_given :
    (k : Text) (m m' : Map ℤ) {v : ℤ} → m ≡ m' → valid_lookup k m ≡ some v → lookup k m' ≡ some v
found_given k m m' same e = rw⁻¹ (same) (ground (arith, e))

-- A configuration that is valid stays so when a file that passes the validation is applied to it, whatever
-- the order of the file's thresholds.
pub apply-valid :
    (g : SegmentMatch) (raw : YamlFileConfig) (cfg : Config)
    → distinct (map (λ e. e.0) raw.thresholds) ≡ true
    → is_ok (validate_semantic g raw) ≡ true
    → is_ok (validate_config cfg) ≡ true
    → is_ok (validate_config (apply (to_file_config raw) cfg)) ≡ true
unfolding to_file_config
apply-valid g raw cfg d h valid =
    let c = to_file_config raw in
    let (ranges, mode) = (validate_config_iff cfg).0 valid in
    let copied : c.thresholds ≡ raw.thresholds = copy_map_lem raw.thresholds d in
    (validate_config_iff (apply c cfg)).1 (
      All-map _ (IsInRange (apply c cfg)) threshold_registry
          (λ s both.
            IsInRange-overridden cfg (apply c cfg) s (valid_lookup s.name c.thresholds) both.0
              (apply-effective c cfg s.name (rw (copied) d))
              (λ v e.
                validate_thresholds-IsBetween raw.thresholds s both.0
                  (validate_semantic-thresholds g raw h)
                  (found_given s.name c.thresholds raw.thresholds copied e))
              both.1)
          (All-and _ _ threshold_registry registry_found ranges),
      rw (apply-mode c cfg) mode,
    )
