-- ===== src/Registry/Resolve.antt =====
-- internal/analyzer/registry.go: what ResolveCheckSelection decides.
use solidify.Base.{
  Bool-cases, keep, all, Text, text_eq, text_eq-eq, text_eq_iff, Map, lookup, insert, lookup-insert,
  or_false, flag, listed, index_by, value_or, lookup-index_by, is_ok, Result-cases, ◌≡◌, refl, sym,
  ap, ◌∙◌, subst, inl, inr, Bool, true, false, not, ◌&&◌, ◌||◌, Option, none, some, List, [], ◌∷◌,
  map, arith, ok,
}
use solidify.Ids.{CheckId, Rule, Profile}
use solidify.Registry.Check.{Check}
use solidify.Registry.Table.{check_registry}
use solidify.Registry.Index.{
  check_id, check_metadata, registered_check_ids, rule_families, is_known_check_id,
}
use solidify.Registry.Selection.{
  resolve_profile, valid_profile, registered, collect_enabled, collect_disabled, in_profile,
  family_enabled, selects, resolve_check_selection, selected_check_ids,
}
use solidify.Registry.Facts.{
  registry_distinct, check_metadata-find_key, check_metadata-listed, is_known_check_id_lem,
  families_unregistered,
}

flag-insert-true :
    (k j : Text) (m : Map Bool) → flag j (insert k true m) ≡ (text_eq k j || flag j m)
flag-insert-true k j m = ground (arith, lookup-insert k j true m)

collect_enabled-flag :
    (k : Text) (ids : List CheckId) (m : Map Bool) {m' : Map Bool}
    → collect_enabled ids m ≡ ok m'
    → flag k m' ≡ (listed k ids || flag k m)
unfolding collect_enabled listed
collect_enabled-flag k [] m {m'} h = ground arith
collect_enabled-flag k (id ∷ ids) m {m'} h =
    ground (arith, collect_enabled-flag k ids (insert id true m) {m' = m'}, flag-insert-true id k m)

collect_enabled-is_ok :
    (ids : List CheckId) (m : Map Bool) → is_ok (collect_enabled ids m) ≡ all registered ids
unfolding collect_enabled
collect_enabled-is_ok [] m = refl
collect_enabled-is_ok (id ∷ ids) m = ground (arith, collect_enabled-is_ok ids (insert id true m))

collect_disabled-flag :
    (k : Text) (exact : Map Bool) (ids : List CheckId) (m : Map Bool) {m' : Map Bool}
    → collect_disabled exact ids m ≡ ok m'
    → flag k m' ≡ (listed k ids || flag k m)
unfolding collect_disabled listed
collect_disabled-flag k exact [] m {m'} h = ground arith
collect_disabled-flag k exact (id ∷ ids) m {m'} h =
    ground (
      arith,
      collect_disabled-flag k exact ids (insert id true m) {m' = m'},
      flag-insert-true id k m,
    )

-- A check may be disabled if it is registered and was not enabled.
abbrev pub may_disable : List CheckId → CheckId → Bool
may_disable enabled id = registered id && not (listed id enabled)

collect_disabled-is_ok :
    (enabled : List CheckId) (exact : Map Bool) (ids : List CheckId) (m : Map Bool)
    → ((k : Text) → flag k exact ≡ listed k enabled)
    → is_ok (collect_disabled exact ids m) ≡ all (may_disable enabled) ids
unfolding collect_disabled
collect_disabled-is_ok enabled exact [] m h = refl
collect_disabled-is_ok enabled exact (id ∷ ids) m h =
    ground (arith, h id, collect_disabled-is_ok enabled exact ids (insert id true m) h)

flag-nil_or : (k : Text) (b : Bool) → (b || flag k []) ≡ b
unfolding lookup
flag-nil_or k true = refl
flag-nil_or k false = refl

-- Resolution succeeds exactly when the profile (the stable one if empty) is known, every enabled
-- check is registered, and every disabled one is registered and not enabled too.
pub resolve_check_selection-is_ok :
    (profile : Profile) (rules : Map Bool) (enabled disabled : List CheckId)
    → is_ok (resolve_check_selection profile rules enabled disabled) ≡ (
        valid_profile (resolve_profile profile)
        && all registered enabled
        && all (may_disable enabled) disabled)
unfolding resolve_check_selection
resolve_check_selection-is_ok profile rules enabled disabled =
    elim (Result-cases (collect_enabled enabled [])) [
      | inl (exact, e) ↦ ground (
        arith,
        e,
        collect_enabled-is_ok enabled [],
        collect_disabled-is_ok enabled exact disabled []
            (λ k. collect_enabled-flag k enabled [] e ∙ flag-nil_or k (listed k enabled)),
      )
      | inr (x, e) ↦ ground (arith, e, collect_enabled-is_ok enabled [])
    ]

-- The inversion of a successful resolution.
resolve_check_selection-inv :
    (profile : Profile) (rules : Map Bool) (enabled disabled : List CheckId) {selection : Map Bool}
    → resolve_check_selection profile rules enabled disabled ≡ ok selection
    → (enabled_exact disabled_exact : Map Bool) × (collect_enabled enabled [] ≡ ok enabled_exact)
      × (collect_disabled enabled_exact disabled [] ≡ ok disabled_exact)
      × (selection
          ≡ index_by check_id
              (selects (resolve_profile profile) rules enabled_exact disabled_exact)
              check_registry
              [])
unfolding resolve_check_selection
resolve_check_selection-inv profile rules enabled disabled {selection} h = ground arith

flag-index_by :
    (value : Check → Bool) (id : CheckId)
    → flag id (index_by check_id value check_registry [])
      ≡ or_false (value_or value (check_metadata id) none)
unfolding lookup
flag-index_by value id =
    ap or_false (lookup-index_by check_id value id check_registry [] registry_distinct)
    ∙ rw (check_metadata-find_key id)

-- What a successful resolution decides for a check, if one has the ID: it is in the profile or
-- enabled by name, its family is enabled or none is named, and it is not disabled.
abbrev pub selected_spec : Profile → Map Bool → List CheckId → List CheckId → Option Check → Bool
selected_spec p rules enabled disabled none = false
selected_spec p rules enabled disabled (some c) =
    (in_profile p c || listed c.id enabled)
    && family_enabled rules c.rule
    && not (listed c.id disabled)

-- A successful resolution selects an ID exactly when a check has that ID, is in the profile (the
-- stable one if empty) or enabled by name, is of an enabled family (any, if none is given), and is
-- not disabled.
pub resolve_check_selection-selects :
    (profile : Profile) (rules : Map Bool) (enabled disabled : List CheckId) {selection : Map Bool}
    (id : CheckId)
    → resolve_check_selection profile rules enabled disabled ≡ ok selection
    → flag id selection
      ≡ selected_spec (resolve_profile profile) rules enabled disabled (check_metadata id)
unfolding selects
resolve_check_selection-selects profile rules enabled disabled id h =
    let (exact, off, he, hd, e) = resolve_check_selection-inv profile rules enabled disabled h in
    rw e (
      flag-index_by (selects (resolve_profile profile) rules exact off) id
      ∙ go exact off (λ k. collect_enabled-flag k enabled [] he ∙ flag-nil_or k _)
          (λ k. collect_disabled-flag k exact disabled [] hd ∙ flag-nil_or k _) (check_metadata id))
  where
    go :
        (exact off : Map Bool)
        → ((k : Text) → flag k exact ≡ listed k enabled)
        → ((k : Text) → flag k off ≡ listed k disabled)
        → (o : Option Check)
        → or_false (value_or (selects (resolve_profile profile) rules exact off) o none)
          ≡ selected_spec (resolve_profile profile) rules enabled disabled o
    go exact off he hd none = refl
    go exact off he hd (some c) = ground (arith, he c.id, hd c.id)

listed-keep :
    (k : Text) (selection : Map Bool) (l : List Check)
    → listed k (map check_id (keep (λ c. flag c.id selection) l))
      ≡ (listed k (map check_id l) && flag k selection)
unfolding listed
listed-keep k selection [] = refl
listed-keep k selection (c ∷ l) = ground (arith, listed-keep k selection l, text_eq_iff c.id k)

-- The list of the selected checks holds exactly the selected IDs.
selected_check_ids-listed :
    (profile : Profile) (rules : Map Bool) (enabled disabled : List CheckId) {selection : Map Bool}
    (id : CheckId)
    → resolve_check_selection profile rules enabled disabled ≡ ok selection
    → listed id (selected_check_ids selection) ≡ flag id selection
unfolding selected_check_ids registered_check_ids
selected_check_ids-listed profile rules enabled disabled {selection} id h =
    listed-keep id selection check_registry
    ∙ ground (
      arith,
      resolve_check_selection-selects profile rules enabled disabled id h,
      check_metadata-listed id,
    )

family-not-listed :
    (r : Text) (l : List Text)
    → all (λ k. not (listed k registered_check_ids)) l ≡ true
    → listed r l ≡ true
    → listed r registered_check_ids ≡ false
unfolding listed
family-not-listed r [] a h = ground arith
family-not-listed r (k ∷ l) a h = ground (arith, family-not-listed r l, text_eq_iff k r)

unregistered : (r : Rule) → listed r registered_check_ids ≡ false → registered r ≡ false
unfolding registered
unregistered r h = ground (arith, check_metadata-listed r, h)

unregistered-enabled :
    (r : Rule) (enabled : List CheckId)
    → registered r ≡ false
    → listed r enabled ≡ true
    → all registered enabled ≡ false
unfolding listed
unregistered-enabled r [] absent h = absurd (ground arith)
unregistered-enabled r (k ∷ enabled) absent h = elim (Bool-cases (text_eq k r)) [
  | inl e ↦
      let same : registered k ≡ false =
        subst (λ j. registered j ≡ false) (sym (text_eq-eq k r e)) absent in
      ground (arith, same)
  | inr e ↦ ground (arith, e, h, unregistered-enabled r enabled absent)
]

-- A rule family passes for a known check ID, as the validation of a configuration file asks, yet
-- no resolution succeeds whose enabled checks name it, wherever in their list.
pub family_enabled_by_id :
    (profile : Profile) (rules : Map Bool) (enabled disabled : List CheckId) (r : Rule)
    → listed r rule_families ≡ true
    → listed r enabled ≡ true
    → (is_known_check_id r ≡ true)
      × (is_ok (resolve_check_selection profile rules enabled disabled) ≡ false)
family_enabled_by_id profile rules enabled disabled r h there =
    let absent : listed r registered_check_ids ≡ false =
      family-not-listed r rule_families families_unregistered h in
    let unknown : registered r ≡ false = unregistered r absent in
    (
      is_known_check_id_lem r ∙ ground (arith, h),
      resolve_check_selection-is_ok profile rules enabled disabled
          ∙ ground (arith, unregistered-enabled r enabled unknown there),
    )
