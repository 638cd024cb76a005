-- ===== src/Config/File.antt =====
-- internal/analyzer/control.go: what a configuration file changes in the configuration.
use solidify.Base.{
  ◌==◌, if◌then◌else◌, Bool-cases, Option-cases, length, Text, text_eq, text_eq-eq, text_eq_iff,
  Map, lookup, distinct, map_eq-find_key, lookup-none, ℤ, ◌≡◌, refl, ap, ◌∙◌, inl, inr, true,
  Option, none, List, [], ◌∷◌, ◌++◌, map, arith,
}
use solidify.Ids.{Profile, Severity, CheckId}
use solidify.Config.Settings.{Config}
use solidify.Config.Thresholds.{
  threshold_registry, threshold_spec, spec_name, effective_thresholds, valid_threshold,
  apply_threshold_value,
}
use solidify.Config.Lenses.{effective_thresholds-lookup, apply_threshold_value-effective}
use solidify.Config.Validation.{overridden}

pub record FileConfig : Type 0 where
  pub profile : Profile
  pub enabled_rules : List Text
  pub enabled_checks : List Text
  pub excludes : List Text
  pub thresholds : Map ℤ
  pub severities : Map Severity
  pub allow_dependencies : List Text
  pub disabled_checks : List Text
  pub fail_level : Severity
  pub ocp_discriminator_fields : List Text
  pub ocp_allow_dispatch_types : List Text
  pub ocp_allow_packages : List Text
  pub ocp_logic_packages : List Text
  pub ocp_implementation_packages : List Text
  pub ocp_composition_roots : List Text
  pub dip_infra_error_packages : List Text
  pub dip_transport_types : List Text
  pub srp_orchestrator_suffixes : List Text
  pub isp_wiring_aggregate_suffixes : List Text
  pub isp_execution_methods : List Text
  pub dip_domain_packages : List Text
  pub dip_data_bag_suffixes : List Text
  pub dip_detail_imports : List Text

-- The target's new value.
abbrev pub apply_non_empty : List Text → List Text → List Text
apply_non_empty target [] = target
apply_non_empty target (v ∷ values) = v ∷ values

-- The loop over the thresholds.
unfoldable pub apply_file_thresholds : Map ℤ → Config → Config
apply_file_thresholds [] cfg = cfg
apply_file_thresholds ((key, value) ∷ thresholds) cfg =
    apply_file_thresholds thresholds (apply_threshold_value cfg key value)

-- The statements before that loop.
unfoldable pub apply_lists : FileConfig → Config → Config
apply_lists c cfg = record cfg {
  profile = if length c.profile == 0 then cfg.profile else c.profile;
  enabled_checks = cfg.enabled_checks ++ c.enabled_checks;
  dip_allow_dependencies = c.allow_dependencies;
  ocp_discriminator_fields =
      apply_non_empty cfg.ocp_discriminator_fields c.ocp_discriminator_fields;
  ocp_allow_dispatch_types = c.ocp_allow_dispatch_types;
  ocp_allow_packages = c.ocp_allow_packages;
  ocp_logic_packages = c.ocp_logic_packages;
  ocp_implementation_packages = c.ocp_implementation_packages;
  ocp_composition_roots = c.ocp_composition_roots;
  dip_infra_error_packages = c.dip_infra_error_packages;
  dip_transport_types = c.dip_transport_types;
  srp_orchestrator_suffixes =
      apply_non_empty cfg.srp_orchestrator_suffixes c.srp_orchestrator_suffixes;
  isp_wiring_aggregate_suffixes =
      apply_non_empty cfg.isp_wiring_aggregate_suffixes c.isp_wiring_aggregate_suffixes;
  isp_execution_methods = c.isp_execution_methods;
  dip_domain_packages = apply_non_empty cfg.dip_domain_packages c.dip_domain_packages;
  dip_data_bag_suffixes = apply_non_empty cfg.dip_data_bag_suffixes c.dip_data_bag_suffixes;
  dip_detail_imports = apply_non_empty cfg.dip_detail_imports c.dip_detail_imports;
}

unfoldable pub apply : FileConfig → Config → Config
apply c cfg =
    let cfg' = apply_file_thresholds c.thresholds (apply_lists c cfg) in
    record cfg' { disabled_checks = cfg'.disabled_checks ++ c.disabled_checks }

abbrev pub valid_lookup : Text → Map ℤ → Option ℤ
valid_lookup k thresholds = if valid_threshold k then lookup k thresholds else none

apply_file_thresholds-effective :
    (thresholds : Map ℤ) (cfg : Config) (k : Text)
    → distinct (map (λ e. e.0) thresholds) ≡ true
    → lookup k (effective_thresholds (apply_file_thresholds thresholds cfg))
      ≡ overridden (valid_lookup k thresholds) (lookup k (effective_thresholds cfg))
unfolding apply_file_thresholds distinct lookup
apply_file_thresholds-effective [] cfg k d = ground arith
apply_file_thresholds-effective ((key, value) ∷ thresholds) cfg k d =
    elim (Bool-cases (text_eq key k)) [
      | inl e ↦
          let same : valid_threshold key ≡ valid_threshold k =
            ap valid_threshold (text_eq-eq key k e) in
          ground (
            arith,
            e,
            same,
            apply_file_thresholds-effective thresholds (apply_threshold_value cfg key value) k,
            apply_threshold_value-effective cfg key k value,
            lookup-none k thresholds,
            text_eq_iff key k,
          )
      | inr e ↦ ground (
        arith,
        e,
        apply_file_thresholds-effective thresholds (apply_threshold_value cfg key value) k,
        apply_threshold_value-effective cfg key k value,
      )
    ]

pub same_thresholds :
    (cfg cfg' : Config) (k : Text)
    → map (λ s. s.get cfg') threshold_registry ≡ map (λ s. s.get cfg) threshold_registry
    → lookup k (effective_thresholds cfg') ≡ lookup k (effective_thresholds cfg)
unfolding threshold_spec
same_thresholds cfg cfg' k same = elim (Option-cases (threshold_spec k)) [
  | inl e ↦ ground (arith, e, effective_thresholds-lookup cfg k, effective_thresholds-lookup cfg' k)
  | inr (s, e) ↦ ground (
    arith,
    e,
    effective_thresholds-lookup cfg k,
    effective_thresholds-lookup cfg' k,
    map_eq-find_key spec_name (λ t. t.get cfg') (λ t. t.get cfg) k threshold_registry same e,
  )
]

apply_lists-effective :
    (c : FileConfig) (cfg : Config) (k : Text)
    → lookup k (effective_thresholds (apply_lists c cfg)) ≡ lookup k (effective_thresholds cfg)
unfolding apply_lists threshold_registry
apply_lists-effective c cfg k = same_thresholds cfg (apply_lists c cfg) k refl

with_disabled : List CheckId → Config → Config
with_disabled ids cfg = record cfg { disabled_checks = cfg.disabled_checks ++ ids }

with_disabled-effective :
    (ids : List CheckId) (cfg : Config) (k : Text)
    → lookup k (effective_thresholds (with_disabled ids cfg)) ≡ lookup k (effective_thresholds cfg)
unfolding threshold_registry with_disabled
with_disabled-effective ids cfg k = same_thresholds cfg (with_disabled ids cfg) k refl

-- A configuration file whose threshold names are all different sets each known threshold that it
-- names to its value and leaves every other one alone, in whatever order the names come.
pub apply-effective :
    (c : FileConfig) (cfg : Config) (k : Text)
    → distinct (map (λ e. e.0) c.thresholds) ≡ true
    → lookup k (effective_thresholds (apply c cfg))
      ≡ overridden (valid_lookup k c.thresholds) (lookup k (effective_thresholds cfg))
unfolding apply with_disabled
apply-effective c cfg k d =
    with_disabled-effective c.disabled_checks
      (apply_file_thresholds c.thresholds (apply_lists c cfg)) k
    ∙ (apply_file_thresholds-effective c.thresholds (apply_lists c cfg) k d
        ∙ ap (overridden (valid_lookup k c.thresholds)) (apply_lists-effective c cfg k))
