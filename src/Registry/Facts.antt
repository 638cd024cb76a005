-- ===== src/Registry/Facts.antt =====
-- Facts about the table of checks, found by evaluation, and what they say about the indexes.
use solidify.Base.{
  Text, Bool, true, not, ◌||◌, ◌≡◌, refl, sym, ◌∙◌, Map, insert, Option, none, some, List, [], ◌∷◌,
  map, arith, all, is_some, distinct, listed, find_key, listed-find_key, lookup-index_by, value_or,
  lookup, lookup-insert, flag, index_by, text_eq,
}
use solidify.Ids.{CheckId}
use solidify.Registry.Table.{check_registry}
use solidify.Registry.Index.{
  check_id, check_by_id, build_check_index, check_metadata, registered_check_ids, rule_families,
  build_known_check_ids, is_known_check_id,
}

pub registry_distinct : distinct (map check_id check_registry) ≡ true
unfolding distinct check_registry text_eq
registry_distinct = refl

value_or-id {ℓ} : {A : Type ℓ} (o : Option A) → value_or (λ a. a) o none ≡ o
value_or-id none = refl
value_or-id (some a) = refl

pub check_metadata-find_key :
    (id : CheckId) → check_metadata id ≡ find_key check_id id check_registry
unfolding check_metadata check_by_id build_check_index lookup
check_metadata-find_key id =
    lookup-index_by check_id (λ c. c) id check_registry [] registry_distinct
    ∙ value_or-id (find_key check_id id check_registry)

-- A check is found exactly under the registered IDs.
pub check_metadata-listed :
    (id : CheckId) → is_some (check_metadata id) ≡ listed id registered_check_ids
unfolding registered_check_ids
check_metadata-listed id =
    rw (check_metadata-find_key id) (sym (listed-find_key check_id id check_registry))

pub families_unregistered : all (λ r. not (listed r registered_check_ids)) rule_families ≡ true
unfolding registered_check_ids check_registry listed text_eq
families_unregistered = refl

pub flag-index_by-true :
    (k : Text) (l : List Text) (m : Map Bool)
    → flag k (index_by (λ j. j) (λ j. true) l m) ≡ (listed k l || flag k m)
unfolding index_by listed
flag-index_by-true k [] m = refl
flag-index_by-true k (j ∷ l) m =
    ground (arith, flag-index_by-true k l (insert j true m), lookup-insert j k true m)

-- A known check ID is a registered ID or a rule family.
pub is_known_check_id_lem :
    (id : Text) → is_known_check_id id ≡ (listed id registered_check_ids || listed id rule_families)
unfolding is_known_check_id build_known_check_ids lookup
is_known_check_id_lem id =
    rw (flag-index_by-true id registered_check_ids, flag-index_by-true id rule_families)
      (ground arith)
