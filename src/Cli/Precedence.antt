-- ===== src/Cli/Precedence.antt =====
-- internal/cli/policy.go: which of the sources of a threshold wins.
use solidify.Base.{
  Text, Map, lookup, distinct, is_ok, chain_ok, Result, ℤ, ◌≡◌, refl, sym, ap, ◌∙◌, subst, Bool,
  true, [], ◌∷◌, map, arith, ok, err,
}
use solidify.Config.Settings.{Config, default_config}
use solidify.Config.Thresholds.{
  threshold_registry, effective_thresholds, apply_thresholds, validate_config,
}
use solidify.Config.Validation.{overridden, apply_thresholds-effective}
use solidify.Config.File.{FileConfig, valid_lookup, same_thresholds, apply-effective}
use solidify.Plan.{new_execution_plan}
use solidify.Registry.Check.{surface_cli}
use solidify.Cli.Rules.{parse_rules}
use solidify.Cli.Options.{CheckOptions}
use solidify.Cli.LegacyFlags.{legacy_values, given, apply_legacy_flags-effective}
use solidify.Cli.Policy.{
  Sources, CheckPolicy, PolicyError, no_file_config, apply_legacy_flags, apply_check_overrides,
  apply_threshold_flags, wrap, load_path, config_path_of, load_found, apply_if_any,
  apply_run_options, starting_config, with_file, policy_from, load_check_config,
  resolve_check_policy, plan_config, invalid_config, rules, selection, rule_spec,
}

apply_check_overrides-effective :
    (cfg : Config) (o : CheckOptions) (file : FileConfig) (k : Text)
    → lookup k (effective_thresholds (apply_check_overrides cfg o file).0)
      ≡ lookup k (effective_thresholds (apply_legacy_flags o cfg))
unfolding apply_check_overrides threshold_registry
apply_check_overrides-effective cfg o file k =
    same_thresholds (apply_legacy_flags o cfg) (apply_check_overrides cfg o file).0 k refl

apply_run_options-effective :
    (o : CheckOptions) (file : FileConfig) (version : Text) (cfg : Config) (k : Text)
    → lookup k (effective_thresholds (apply_run_options o file version cfg))
      ≡ lookup k (effective_thresholds cfg)
unfolding apply_run_options threshold_registry
apply_run_options-effective o file version cfg k =
    same_thresholds cfg (apply_run_options o file version cfg) k refl

starting_config-effective :
    (k : Text)
    → lookup k (effective_thresholds starting_config)
      ≡ lookup k (effective_thresholds default_config)
unfolding threshold_registry
starting_config-effective k = same_thresholds default_config starting_config k refl

wrap-ok : {E A : Type 0} (f : E → PolicyError) (r : Result E A) {a : A} → wrap f r ≡ ok a → r ≡ ok a
wrap-ok f (ok a) h = cc
wrap-ok f (err e) h = absurd (cc)

apply_if_any-effective :
    (flags : Map ℤ) (cfg : Config) {cfg' : Config} (k : Text)
    → distinct (map (λ e. e.0) flags) ≡ true
    → apply_if_any flags cfg ≡ ok cfg'
    → lookup k (effective_thresholds cfg')
      ≡ overridden (lookup k flags) (lookup k (effective_thresholds cfg))
unfolding lookup
apply_if_any-effective [] cfg {cfg'} k d h =
    let same : cfg ≡ cfg' = cc in ap (λ c. lookup k (effective_thresholds c)) (sym same)
apply_if_any-effective (t ∷ flags) cfg {cfg'} k d h =
    (apply_thresholds-effective (t ∷ flags) cfg k d
      (wrap-ok _ (apply_thresholds cfg (t ∷ flags)) h)).0

-- Where there is no file, its configuration is empty.
abbrev IsLoaded : Text → FileConfig → Type 0
IsLoaded [] file = file ≡ no_file_config
IsLoaded (c ∷ path) file = Unit

with_file-effective :
    (path : Text) (file : FileConfig) (k : Text)
    → distinct (map (λ e. e.0) file.thresholds) ≡ true
    → IsLoaded path file
    → lookup k (effective_thresholds (with_file path file))
      ≡ overridden (valid_lookup k file.thresholds) (lookup k (effective_thresholds default_config))
unfolding lookup
with_file-effective [] file k d empty = rw (empty) (starting_config-effective k ∙ ground arith)
with_file-effective (c ∷ path) file k d _ =
    apply-effective file starting_config k d
    ∙ ap (overridden (valid_lookup k file.thresholds)) (starting_config-effective k)

load_found-IsLoaded :
    (s : Sources) (found : Text × Bool) {path : Text} {discovered : Bool} {file : FileConfig}
    → load_found s found ≡ ok (path, (discovered, file))
    → IsLoaded path file
load_found-IsLoaded s ([], d) {path} {file = file} h =
    let none_found : [] ≡ path = cc in
    let empty : no_file_config ≡ file = cc in subst (λ q. IsLoaded q file) none_found (sym empty)
load_found-IsLoaded s (c ∷ p, d) {path} {file = file} h =
    let (_, _, loaded) = chain_ok (load_path s (c ∷ p)) _ h in
    let found : c ∷ p ≡ path = cc in subst (λ q. IsLoaded q file) found tt

-- What a threshold is in the configuration of a policy: the value of its -threshold flag, or else of its own
-- flag, or else of the configuration file, or else the default.
abbrev pub IsResolved : CheckOptions → CheckPolicy → Text → Type 0
IsResolved o policy k =
    lookup k (effective_thresholds policy.config)
    ≡ overridden (lookup k o.thresholds) (
        overridden (given k o.set (legacy_values o)) (
          overridden (valid_lookup k policy.file_config.thresholds)
            (lookup k (effective_thresholds default_config))))

abbrev overrides : CheckOptions → Text → FileConfig → Config × CheckOptions
overrides o path file = apply_check_overrides (with_file path file) o file

abbrev config_of : Result PolicyError CheckPolicy → Config
config_of (ok policy) = policy.config
config_of (err e) = starting_config

abbrev file_of : Result PolicyError CheckPolicy → FileConfig
file_of (ok policy) = policy.file_config
file_of (err e) = no_file_config

policy_from-parts :
    (o : CheckOptions) (version path : Text) (file : FileConfig) {policy : CheckPolicy}
    → policy_from o version path file ≡ ok policy
    → (flagged : Config) × (apply_threshold_flags
          (overrides o path file).1
          (overrides o path file).0
        ≡ ok flagged)
      × (policy.config ≡ apply_run_options (overrides o path file).1 file version flagged)
      × (policy.file_config ≡ file)
      × (is_ok (validate_config policy.config) ≡ true)
unfolding policy_from
policy_from-parts o version path file {policy} h =
    let c = overrides o path file in
    let (flagged, e₁, h₁) = chain_ok (apply_threshold_flags c.1 c.0) _ h in
    let cfg = apply_run_options c.1 file version flagged in
    let (_, e₂, h₂) = chain_ok (wrap invalid_config (validate_config cfg)) _ h₁ in
    let (enabled, e₃, h₃) = chain_ok (wrap rules (parse_rules (rule_spec c.1 file))) _ h₂ in
    let (plan, e₄, h₄) =
      chain_ok (wrap selection (new_execution_plan (plan_config cfg) enabled surface_cli)) _ h₃ in
    let same : cfg ≡ policy.config = ap config_of h₄ in
    let valid : is_ok (validate_config cfg) ≡ true =
      ap is_ok (wrap-ok invalid_config (validate_config cfg) e₂) in
    (
      flagged,
      e₁,
      sym same,
      sym (ap file_of h₄),
      subst (λ x. is_ok (validate_config x) ≡ true) same valid,
    )

overrides-thresholds :
    (cfg : Config) (o : CheckOptions) (file : FileConfig)
    → (apply_check_overrides cfg o file).1.thresholds ≡ o.thresholds
unfolding apply_check_overrides
overrides-thresholds cfg o file = ground arith

policy_from-IsResolved :
    (o : CheckOptions) (version path : Text) (file : FileConfig) {policy : CheckPolicy} (k : Text)
    → distinct (map (λ e. e.0) o.thresholds) ≡ true
    → distinct (map (λ e. e.0) policy.file_config.thresholds) ≡ true
    → IsLoaded path file
    → policy_from o version path file ≡ ok policy
    → IsResolved o policy k × (is_ok (validate_config policy.config) ≡ true)
unfolding apply_threshold_flags
policy_from-IsResolved o version path file {policy} k d f loaded h =
    let (flagged, applied, config, same, valid) = policy_from-parts o version path file h in
    let c = overrides o path file in
    let given_flags = overrides-thresholds (with_file path file) o file in
    let from_file = with_file-effective path file k (rw⁻¹ (same) f) loaded in
    let from_flags = apply_if_any-effective c.1.thresholds c.0 k (rw (given_flags) d) applied in
    let from_legacy =
      apply_check_overrides-effective (with_file path file) o file k
      ∙ (apply_legacy_flags-effective o (with_file path file) k
          ∙ ap (overridden (given k o.set (legacy_values o))) (
              from_file
              ∙ ap
                  (λ g.
                    overridden (valid_lookup k g.thresholds)
                      (lookup k (effective_thresholds default_config)))
                  (sym same))) in
    (
      ap (λ x. lookup k (effective_thresholds x)) config
          ∙ (apply_run_options-effective c.1 file version flagged k
              ∙ (from_flags
                  ∙ (ap (λ t. overridden (lookup k t) (lookup k (effective_thresholds c.0)))
                        given_flags
                      ∙ ap (overridden (lookup k o.thresholds)) from_legacy))),
      valid,
    )

-- Where a check's options resolve to a policy, each threshold of its configuration has the value of
-- its -threshold flag, or else of its own flag, or else of the configuration file, or else the
-- default, and the configuration is valid.
pub resolve_check_policy-IsResolved :
    (s : Sources) (o : CheckOptions) (version : Text) {policy : CheckPolicy} (k : Text)
    → distinct (map (λ e. e.0) o.thresholds) ≡ true
    → distinct (map (λ e. e.0) policy.file_config.thresholds) ≡ true
    → resolve_check_policy s o version ≡ ok policy
    → IsResolved o policy k × (is_ok (validate_config policy.config) ≡ true)
unfolding resolve_check_policy load_check_config
resolve_check_policy-IsResolved s o version k d f h =
    let ((path, (_, file)), loaded, resolved) = chain_ok (load_check_config s o) _ h in
    let (found, _, read) = chain_ok (config_path_of s o o.config_path) _ loaded in
    policy_from-IsResolved o version path file k d f (load_found-IsLoaded s found read) resolved
