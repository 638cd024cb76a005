-- ===== src/Base/Found.antt =====
-- What a test of the elements finds in a list that was filtered, sorted or mapped.
use mathlib.Core.Path.{◌≡◌, refl, ap, ◌∙◌}
use mathlib.Core.Bool.{Bool, true, ◌&&◌, ◌||◌}
use mathlib.Core.List.{List, [], ◌∷◌, map}
use native.Mathlib.Omega.{arith}
use solidify.Base.Lists.{All, All-map, any, keep}
use solidify.Base.Strings.{Text}
use solidify.Base.Sorting.{insert_sorted, sort_by}

module _ {ℓ} {A : Type ℓ} where
  pub any-found : (l : List A) → All (λ a. (f : A → Bool) → f a ≡ true → any f l ≡ true) l
  any-found [] = tt
  any-found (a ∷ l) =
      (λ f h. ground (arith, h), All-map _ _ l (λ b g f h. ground (arith, g f h)) (any-found l))

  pub any-keep : (f p : A → Bool) (l : List A) → any f (keep p l) ≡ any (λ a. p a && f a) l
  any-keep f p [] = refl
  any-keep f p (a ∷ l) = ground (arith, any-keep f p l)

  any-insert_sorted :
      (f : A → Bool) (key : A → Text) (a : A) (l : List A)
      → any f (insert_sorted key a l) ≡ (f a || any f l)
  unfolding insert_sorted
  any-insert_sorted f key a [] = refl
  any-insert_sorted f key a (b ∷ l) = ground (arith, any-insert_sorted f key a l)

  pub any-sort_by : (f : A → Bool) (key : A → Text) (l : List A) → any f (sort_by key l) ≡ any f l
  unfolding sort_by
  any-sort_by f key [] = refl
  any-sort_by f key (a ∷ l) =
      any-insert_sorted f key a (sort_by key l) ∙ ap (λ b. f a || b) (any-sort_by f key l)

pub any-map {ℓ κ} :
    {A : Type ℓ} {B : Type κ} (f : B → Bool) (g : A → B) (l : List A)
    → any f (map g l) ≡ any (λ a. f (g a)) l
any-map f g [] = refl
any-map f g (a ∷ l) = ap (λ b. f (g a) || b) (any-map f g l)
