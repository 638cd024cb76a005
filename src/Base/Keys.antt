-- ===== src/Base/Keys.antt =====
-- What the loops that fill a map from a slice leave in it, and maps of slices.
use mathlib.Core.Path.{◌≡◌, refl}
use mathlib.Core.Bool.{Bool, true, ◌&&◌, ◌||◌}
use mathlib.Core.List.{List, [], ◌∷◌, ◌++◌, map}
use mathlib.Core.Option.{Option, none, some}
use native.Mathlib.Omega.{arith}
use solidify.Base.Lists.{keep}
use mathlib.Core.Logic.{inl, inr}
use mathlib.Core.Path.{ap}
use solidify.Base.Tests.{Bool-cases, if◌then◌else◌, is_some}
use solidify.Base.Strings.{Text, text_eq, text_eq_iff, text_eq-eq}
use solidify.Base.Maps.{Map, lookup, insert, lookup-insert, flag, listed, index_by}

module _ {ℓ} {A : Type ℓ} (key : A → Text) where
  -- After the loop the map has the keys of the slice and those it had.
  pub lookup-index_by-listed {κ} :
      {V : Type κ} (value : A → V) (k : Text) (l : List A) (m : Map V)
      → is_some (lookup k (index_by key value l m)) ≡ (listed k (map key l) || is_some (lookup k m))
  unfolding index_by listed
  lookup-index_by-listed value k [] m = refl
  lookup-index_by-listed value k (a ∷ l) m = ground (
    arith,
    lookup-index_by-listed value k l (insert (key a) (value a) m),
    lookup-insert (key a) k (value a) m,
  )

  -- An indexed element stands under its own key.
  pub lookup-index_by-key :
      (k : Text) (l : List A) (m : Map A) {a : A}
      → ((b : A) → lookup k m ≡ some b → key b ≡ k)
      → lookup k (index_by key (λ b. b) l m) ≡ some a
      → key a ≡ k
  unfolding index_by
  lookup-index_by-key k [] m {a} old h = old a h
  lookup-index_by-key k (a ∷ l) m old h =
      lookup-index_by-key k l (insert (key a) a m)
        (λ b e. ground (arith, e, lookup-insert (key a) k a m, text_eq_iff (key a) k, old b)) h

module _ {ℓ} {A : Type ℓ} (key : A → Text) where
  pub listed-map_append :
      (k : Text) (l m : List A)
      → listed k (map key (l ++ m)) ≡ (listed k (map key l) || listed k (map key m))
  unfolding listed
  listed-map_append k [] m = refl
  listed-map_append k (a ∷ l) m = ground (arith, listed-map_append k l m)

  -- Where a test goes by the key, the keys that are kept are those that pass.
  pub listed-keep :
      (p : A → Bool) (f : Text → Bool)
      → ((a : A) → p a ≡ f (key a))
      → (k : Text) (l : List A) → listed k (map key (keep p l)) ≡ (listed k (map key l) && f k)
  unfolding listed
  listed-keep p f h k [] = refl
  listed-keep p f h k (a ∷ l) = elim (Bool-cases (text_eq (key a) k)) [
    | inl e ↦
        let same : f (key a) ≡ f k = ap f (text_eq-eq (key a) k e) in
        ground (arith, e, same, h a, listed-keep p f h k l)
    | inr e ↦ ground (arith, e, h a, listed-keep p f h k l)
  ]

pub flag-insert : (k j : Text) (m : Map Bool) → flag j (insert k true m) ≡ (text_eq k j || flag j m)
flag-insert k j m = ground (arith, lookup-insert k j true m)

abbrev or_nil {ℓ} : {A : Type ℓ} → Option (List A) → List A
or_nil none = []
or_nil (some l) = l

-- `m[k]` on a map of slices: a missing key reads as the empty slice.
abbrev pub slice {ℓ} : {A : Type ℓ} → Text → Map (List A) → List A
slice k m = or_nil (lookup k m)

-- `m[k] = append(m[k], l...)`
unfoldable pub append_at {ℓ} : {A : Type ℓ} → Text → List A → Map (List A) → Map (List A)
append_at k l m = insert k (slice k m ++ l) m

pub slice-append_at {ℓ} :
    {A : Type ℓ} (k j : Text) (l : List A) (m : Map (List A))
    → slice j (append_at k l m) ≡ (if text_eq k j then slice j m ++ l else slice j m)
unfolding append_at
slice-append_at k j l m = elim (Bool-cases (text_eq k j)) [
  | inl e ↦
      let same : slice k m ≡ slice j m = ap (λ i. slice i m) (text_eq-eq k j e) in
      ground (arith, e, same, lookup-insert k j (slice k m ++ l) m)
  | inr e ↦ ground (arith, e, lookup-insert k j (slice k m ++ l) m)
]
