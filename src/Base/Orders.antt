-- ===== src/Base/Orders.antt =====
-- `sort.Slice` by a comparison. Where the comparison is an order on keys, what is sorted shows the same keys
-- whatever the order that it came in.
use mathlib.Core.Path.{◌≡◌, refl, ap, ◌∙◌, sym}
use mathlib.Core.Bool.{Bool, true, false, not}
use mathlib.Core.Logic.{◌↔◌}
use mathlib.Core.List.{List, [], ◌∷◌, map, Perm, foldr}
use mathlib.Core.List.Perm
use native.Mathlib.Omega.{arith}
use solidify.Base.Tests.{if◌then◌else◌}

module _ {ℓ} {A : Type ℓ} (less : A → A → Bool) where
  unfoldable pub insert_with : A → List A → List A
  insert_with a [] = a ∷ []
  insert_with a (b ∷ l) = if less b a then b ∷ insert_with a l else a ∷ b ∷ l

  -- Go leaves the order of elements open of which neither is less; here they keep theirs.
  unfoldable pub sort_with : List A → List A
  sort_with [] = []
  sort_with (a ∷ l) = insert_with a (sort_with l)

  -- The comparison is an order in which two elements are the same if neither is less.
  pub record IsOrder : Type ℓ where
    pub asymm : (a b : A) → less a b ≡ true → less b a ≡ false
    pub between : (a b c : A) → less a c ≡ true → less a b ≡ false → less b c ≡ true
    pub total : (a b : A) → less a b ≡ false → less b a ≡ false → a ≡ b

  module _ (o : IsOrder) where
    insert_with_comm :
        (a b : A) (l : List A) → insert_with a (insert_with b l) ≡ insert_with b (insert_with a l)
    unfolding insert_with
    insert_with_comm a b [] = ground (arith, o.asymm a b, o.asymm b a, o.total a b)
    insert_with_comm a b (c ∷ l) = ground (
      arith,
      o.asymm a b,
      o.asymm b a,
      o.total a b,
      o.between c a b,
      o.between c b a,
      insert_with_comm a b l,
    )

    sort_with-foldr : (l : List A) → sort_with l ≡ foldr insert_with [] l
    unfolding sort_with
    sort_with-foldr [] = refl
    sort_with-foldr (a ∷ l) = ap (insert_with a) (sort_with-foldr l)

    -- What is sorted does not depend on the order before.
    pub sort_with_perm : IsSet (List A) → {l m : List A} → Perm l m → sort_with l ≡ sort_with m
    sort_with_perm set {l} {m} p =
        sort_with-foldr l
        ∙ (Perm.foldr-eq set insert_with insert_with_comm p [] ∙ sym (sort_with-foldr m))

module _ {ℓ κ} {A : Type ℓ} {B : Type κ} (key : A → B) (less : A → A → Bool) (below : B → B → Bool)
    (agree : (a b : A) → less a b ≡ below (key a) (key b)) where
  map-insert_with :
      (a : A) (l : List A) → map key (insert_with less a l) ≡ insert_with below (key a) (map key l)
  unfolding insert_with
  map-insert_with a [] = refl
  map-insert_with a (b ∷ l) = ground (arith, agree b a, map-insert_with a l)

  -- Where the comparison only looks at keys, sorting and taking the keys may change places.
  pub map-sort_with : (l : List A) → map key (sort_with less l) ≡ sort_with below (map key l)
  unfolding sort_with
  map-sort_with [] = refl
  map-sort_with (a ∷ l) =
      map-insert_with a (sort_with less l) ∙ ap (insert_with below (key a)) (map-sort_with l)

-- First by the one component, then by the other.
abbrev pub lexicographic {ℓ κ} :
    {A : Type ℓ} {B : Type κ}
    → (A → A → Bool)
    → (A → A → Bool)
    → (B → B → Bool)
    → A × B
    → A × B
    → Bool
lexicographic eq less below (a, b) (a', b') = if not (eq a a') then less a a' else below b b'

pub lexicographic-IsOrder {ℓ κ} :
    {A : Type ℓ} {B : Type κ} (eq less : A → A → Bool) (below : B → B → Bool)
    → ((a a' : A) → (eq a a' ≡ true) ↔ (a ≡ a'))
    → IsOrder less
    → IsOrder below
    → IsOrder (lexicographic eq less below)
lexicographic-IsOrder eq less below same first second = record {
  asymm = λ (a, b) (a', b') h.
      ground (arith, same a a', same a' a, first.asymm a a', second.asymm b b');
  between = λ (a, b) (a', b') (a'', b'') h k. ground (
    arith,
    h,
    k,
    same a a',
    same a a'',
    same a' a'',
    first.between a a' a'',
    second.between b b' b'',
    first.total a a',
  );
  total = λ (a, b) (a', b') h k.
      let front : a ≡ a' = ground (arith, h, k, same a a', same a' a, first.total a a') in
      let back : b ≡ b' = ground (arith, h, k, front, same a a', same a' a, second.total b b') in
      λ i. (front i, back i);
}
