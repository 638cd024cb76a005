-- ===== src/Cli/LegacyFlags.antt =====
-- internal/cli/policy.go: the dedicated threshold flags write the thresholds of their names.
use solidify.Base.{
  if◌then◌else◌, Bool-cases, all, Text, text, text_eq, text_eq-eq, Map, lookup, flag, listed,
  distinct, find_key, replace_byte, ℤ, ◌≡◌, refl, ap, inl, inr, Bool, true, false, ◌&&◌, Option,
  none, some, List, [], ◌∷◌, map, arith,
}
use solidify.Config.Settings.{Config}
use solidify.Config.Thresholds.{
  threshold_registry, threshold_spec, effective_thresholds, valid_threshold, apply_threshold_value,
}
use solidify.Config.Lenses.{apply_threshold_value-effective}
use solidify.Config.Validation.{overridden}
use solidify.Cli.Options.{CheckOptions, threshold_key}
use solidify.Cli.Policy.{apply_legacy_flags}

-- The dedicated flags and their values.
abbrev pub legacy_values : CheckOptions → List (Text × ℤ)
legacy_values o =
    (text "max-methods", o.max_methods)
    ∷ (text "max-func-lines", o.max_func_lines)
    ∷ (text "max-params", o.max_params)
    ∷ (text "max-switch-cases", o.max_switch_cases)
    ∷ (text "max-interface-methods", o.max_interface_methods)
    ∷ (text "isp-min-methods", o.isp_min_methods)
    ∷ (text "isp-usage-ratio-percent", o.isp_usage_ratio_percent)
    ∷ []

-- The value of the flag for the threshold, if it was set.
abbrev pub given : Text → Map Bool → List (Text × ℤ) → Option ℤ
given k set [] = none
given k set ((name, value) ∷ flags) =
    let rest = given k set flags in
    if flag name set && text_eq (threshold_key name) k then some value else rest

abbrev flag_keys : List (Text × ℤ) → List Text
flag_keys flags = map (λ e. threshold_key e.0) flags

apply_flags : Map Bool → List (Text × ℤ) → Config → Config
apply_flags set [] c = c
apply_flags set ((name, value) ∷ flags) c =
    apply_flags set flags
      (if flag name set then apply_threshold_value c (threshold_key name) value else c)

apply_legacy_flags-apply_flags :
    (o : CheckOptions) (c : Config) → apply_legacy_flags o c ≡ apply_flags o.set (legacy_values o) c
unfolding apply_legacy_flags apply_flags apply_threshold_value threshold_spec threshold_registry
    find_key text_eq replace_byte
apply_legacy_flags-apply_flags o c = refl

given-none :
    (k : Text) (set : Map Bool) (flags : List (Text × ℤ))
    → listed k (flag_keys flags) ≡ false
    → given k set flags ≡ none
unfolding listed
given-none k set [] h = refl
given-none k set ((name, value) ∷ flags) h = ground (arith, given-none k set flags)

apply_flags-effective :
    (set : Map Bool) (flags : List (Text × ℤ)) (c : Config) (k : Text)
    → distinct (flag_keys flags) ≡ true
    → all valid_threshold (flag_keys flags) ≡ true
    → lookup k (effective_thresholds (apply_flags set flags c))
      ≡ overridden (given k set flags) (lookup k (effective_thresholds c))
unfolding apply_flags distinct
apply_flags-effective set [] c k d v = refl
apply_flags-effective set ((name, value) ∷ flags) c k d v =
    let set_one = apply_threshold_value c (threshold_key name) value in
    elim (Bool-cases (flag name set)) [
      | inl e ↦ elim (Bool-cases (text_eq (threshold_key name) k)) [
        | inl same ↦
            let at : listed (threshold_key name) (flag_keys flags) ≡ listed k (flag_keys flags) =
              ap (λ j. listed j (flag_keys flags)) (text_eq-eq (threshold_key name) k same) in
            ground (
              arith,
              e,
              same,
              at,
              given-none k set flags,
              apply_flags-effective set flags set_one k,
              apply_threshold_value-effective c (threshold_key name) k value,
            )
        | inr other ↦ ground (
          arith,
          e,
          other,
          apply_flags-effective set flags set_one k,
          apply_threshold_value-effective c (threshold_key name) k value,
        )
      ]
      | inr e ↦ ground (arith, e, apply_flags-effective set flags c k)
    ]

pub apply_legacy_flags-effective :
    (o : CheckOptions) (c : Config) (k : Text)
    → lookup k (effective_thresholds (apply_legacy_flags o c))
      ≡ overridden (given k o.set (legacy_values o)) (lookup k (effective_thresholds c))
unfolding distinct listed text_eq replace_byte valid_threshold threshold_spec threshold_registry
    find_key
apply_legacy_flags-effective o c k =
    rw (apply_legacy_flags-apply_flags o c)
      (apply_flags-effective o.set (legacy_values o) c k refl refl)
