-- ===== src/Registry/Selection.antt =====
-- internal/analyzer/registry.go: ResolveCheckSelection and SelectedCheckIDs.
use solidify.Base.{
  Bool, true, false, not, ◌&&◌, ◌||◌, List, [], ◌∷◌, map, Map, flag, insert, index_by, listed, keep,
  is_some, if◌then◌else◌, text_eq, Result, ok, err, ◌>>=◌,
}
use solidify.Ids.{CheckId, Rule, Profile, profile_stable, profile_all, profile_calibration}
use solidify.Registry.Check.{Check, Maturity, stable}
use solidify.Registry.Table.{check_registry, calibration_checks}
use solidify.Registry.Index.{check_id, check_metadata}

pub data SelectionError : Type 0 where
  bad_profile : Profile → SelectionError
  unknown_enabled unknown_disabled enabled_and_disabled : CheckId → SelectionError

abbrev pub resolve_profile : Profile → Profile
resolve_profile [] = profile_stable
resolve_profile p = p

unfoldable pub valid_profile : Profile → Bool
valid_profile p = text_eq p profile_stable || text_eq p profile_all || text_eq p profile_calibration

-- `_, ok := checkByID[id]`
unfoldable pub registered : CheckId → Bool
registered id = is_some (check_metadata id)

-- The loop over enabledChecks.
unfoldable pub collect_enabled : List CheckId → Map Bool → Result SelectionError (Map Bool)
collect_enabled [] exact = ok exact
collect_enabled (id ∷ ids) exact =
    let rest = collect_enabled ids (insert id true exact) in
    if registered id then rest else err (unknown_enabled id)

-- The loop over disabledChecks.
unfoldable pub collect_disabled :
    Map Bool → List CheckId → Map Bool → Result SelectionError (Map Bool)
collect_disabled enabled_exact [] exact = ok exact
collect_disabled enabled_exact (id ∷ ids) exact =
    let rest = collect_disabled enabled_exact ids (insert id true exact) in
    if not (registered id)
    then err (unknown_disabled id)
    else if flag id enabled_exact
    then err (enabled_and_disabled id)
    else rest

abbrev pub is_stable : Maturity → Bool
is_stable stable = true
is_stable _ = false

unfoldable pub in_profile : Profile → Check → Bool
in_profile p c =
    text_eq p profile_all
    || (text_eq p profile_stable && is_stable c.maturity)
    || (text_eq p profile_calibration && listed c.id calibration_checks)

unfoldable pub family_enabled : Map Bool → Rule → Bool
family_enabled [] rule = true
family_enabled (r ∷ rs) rule = flag rule (r ∷ rs)

unfoldable pub selects : Profile → Map Bool → Map Bool → Map Bool → Check → Bool
selects p rules enabled_exact disabled_exact c =
    (in_profile p c || flag c.id enabled_exact)
    && family_enabled rules c.rule
    && not (flag c.id disabled_exact)

unfoldable pub resolve_check_selection :
    Profile → Map Bool → List CheckId → List CheckId → Result SelectionError (Map Bool)
resolve_check_selection profile rules enabled disabled =
    let p = resolve_profile profile in
    let rest : Result SelectionError (Map Bool) = do
      enabled_exact ← collect_enabled enabled []
      disabled_exact ← collect_disabled enabled_exact disabled []
      ok (index_by check_id (selects p rules enabled_exact disabled_exact) check_registry [])
    in if valid_profile p then rest else err (bad_profile p)

unfoldable pub selected_check_ids : Map Bool → List CheckId
selected_check_ids selection = map check_id (keep (λ c. flag c.id selection) check_registry)
