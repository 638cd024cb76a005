-- ===== src/Config/Lenses.antt =====
-- Each threshold has a setting of its own: writing it changes that one and no other.
use solidify.Base.{
  if◌then◌else◌, Option-cases, All, Text, text_eq, text_eq_iff, lookup, listed, distinct, value_or,
  find_key-key, lookup-index_by, All-find_key, map_eq-find_key, ℤ, ◌≡◌, refl, ◌∙◌, inl, inr, true,
  ◌&&◌, none, some, [], map, arith,
}
use solidify.Config.Settings.{Config}
use solidify.Config.Thresholds.{
  ThresholdSpec, threshold_registry, spec_name, threshold_spec, valid_threshold,
  effective_thresholds, apply_threshold_value,
}

-- After a write through `s`, each threshold of the name reads as the value, and each other as before.
abbrev SetsOnly : ThresholdSpec → Type 0
SetsOnly s =
    (c : Config) (v : ℤ)
    → map (λ t. t.get (s.set c v)) threshold_registry
      ≡ map (λ t. if text_eq s.name t.name then v else t.get c) threshold_registry

All-SetsOnly : All SetsOnly threshold_registry
unfolding threshold_registry text_eq
All-SetsOnly = (
  λ c v. refl,
  (
    λ c v. refl,
    (
      λ c v. refl,
      (
        λ c v. refl,
        (
          λ c v. refl,
          (
            λ c v. refl,
            (
              λ c v. refl,
              (
                λ c v. refl,
                (
                  λ c v. refl,
                  (
                    λ c v. refl,
                    (
                      λ c v. refl,
                      (
                        λ c v. refl,
                        (
                          λ c v. refl,
                          (
                            λ c v. refl,
                            (
                              λ c v. refl,
                              (
                                λ c v. refl,
                                (
                                  λ c v. refl,
                                  (
                                    λ c v. refl,
                                    (
                                      λ c v. refl,
                                      (
                                        λ c v. refl,
                                        (
                                          λ c v. refl,
                                          (
                                            λ c v. refl,
                                            (
                                              λ c v. refl,
                                              (
                                                λ c v. refl,
                                                (
                                                  λ c v. refl,
                                                  (
                                                    λ c v. refl,
                                                    (λ c v. refl, (λ c v. refl, (λ c v. refl, tt))),
                                                  ),
                                                ),
                                              ),
                                            ),
                                          ),
                                        ),
                                      ),
                                    ),
                                  ),
                                ),
                              ),
                            ),
                          ),
                        ),
                      ),
                    ),
                  ),
                ),
              ),
            ),
          ),
        ),
      ),
    ),
  ),
)

pub threshold_registry-distinct : distinct (map spec_name threshold_registry) ≡ true
unfolding threshold_registry distinct text_eq listed
threshold_registry-distinct = refl

threshold_value-spec :
    (cfg : Config) (key k : Text) (value : ℤ) (s t : ThresholdSpec)
    → threshold_spec key ≡ some s
    → threshold_spec k ≡ some t
    → t.get (s.set cfg value) ≡ (if text_eq key k then value else t.get cfg)
unfolding threshold_spec
threshold_value-spec cfg key k value s t hs ht =
    map_eq-find_key spec_name (λ u. u.get (s.set cfg value))
      (λ u. if text_eq s.name u.name then value else u.get cfg) k threshold_registry
      (All-find_key spec_name SetsOnly key threshold_registry All-SetsOnly hs cfg value) ht
    ∙ rw (
      find_key-key spec_name key threshold_registry s hs,
      find_key-key spec_name k threshold_registry t ht,
    )

-- The value of a threshold in a configuration, if there is one of that name.
pub effective_thresholds-lookup :
    (cfg : Config) (k : Text)
    → lookup k (effective_thresholds cfg) ≡ value_or (λ s. s.get cfg) (threshold_spec k) none
unfolding effective_thresholds threshold_spec lookup
effective_thresholds-lookup cfg k =
    lookup-index_by spec_name (λ s. s.get cfg) k threshold_registry [] threshold_registry-distinct

-- Writing one threshold by its key changes that one, if there is one of that name, and no other.
pub apply_threshold_value-effective :
    (cfg : Config) (key k : Text) (value : ℤ)
    → lookup k (effective_thresholds (apply_threshold_value cfg key value)) ≡ (
        if text_eq key k && valid_threshold key
        then some value
        else lookup k (effective_thresholds cfg))
unfolding apply_threshold_value valid_threshold
apply_threshold_value-effective cfg key k value = elim (Option-cases (threshold_spec key)) [
  | inl e ↦ ground (arith, e)
  | inr (s, e) ↦ elim (Option-cases (threshold_spec k)) [
    | inl e' ↦ ground (
      arith,
      e,
      e',
      effective_thresholds-lookup (s.set cfg value) k,
      effective_thresholds-lookup cfg k,
      text_eq_iff key k,
    )
    | inr (t, e') ↦ ground (
      arith,
      e,
      e',
      effective_thresholds-lookup (s.set cfg value) k,
      effective_thresholds-lookup cfg k,
      threshold_value-spec cfg key k value s t e e',
    )
  ]
]
