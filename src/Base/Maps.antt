-- ===== src/Base/Maps.antt =====
-- Go maps with string keys as association lists without repeated keys: a write replaces the value
-- in place, or adds the key at the end. Go leaves the order of iteration open; the theorems that
-- speak of an iteration over a map say what they need of the order.
use mathlib.Core.Path.{◌≡◌, refl}
use mathlib.Core.Bool.{Bool, true, false, not, ◌&&◌, ◌||◌}
use mathlib.Core.List.{List, [], ◌∷◌, ◌++◌, map}
use mathlib.Core.Option.{Option, none, some}
use native.Mathlib.Omega.{arith}
use solidify.Base.Lists.{All, All-map}
use mathlib.Core.Logic.{inl, inr}
use mathlib.Core.Path.{subst}
use solidify.Base.Tests.{Bool-cases, if◌then◌else◌, is_some}
use solidify.Base.Strings.{Text, text_eq, text_eq_iff, text_eq_comm, text_eq_refl}

abbrev pub Map {ℓ} : Type ℓ → Type ℓ
Map V = List (Text × V)

module _ {ℓ} {V : Type ℓ} where
  -- `v, ok := m[k]`
  unfoldable pub lookup : Text → Map V → Option V
  lookup k [] = none
  lookup k ((j, v) ∷ m) = if text_eq j k then some v else lookup k m

  -- `m[k] = v`
  unfoldable pub insert : Text → V → Map V → Map V
  insert k v [] = (k, v) ∷ []
  insert k v ((j, w) ∷ m) = if text_eq j k then (j, v) ∷ m else (j, w) ∷ insert k v m

  pub lookup-insert :
      (k j : Text) (v : V) (m : Map V)
      → lookup j (insert k v m) ≡ (if text_eq k j then some v else lookup j m)
  unfolding lookup insert
  lookup-insert k j v [] = refl
  lookup-insert k j v ((i, w) ∷ m) =
      ground (arith, lookup-insert k j v m, text_eq_iff i k, text_eq_iff i j, text_eq_iff k j)

abbrev pub or_false : Option Bool → Bool
or_false none = false
or_false (some b) = b

-- `m[k]` on a `map[string]bool`: a missing key reads as false.
abbrev pub flag : Text → Map Bool → Bool
flag k m = or_false (lookup k m)

-- Is the text in the list? (A `map[string]bool` literal whose values are all true.)
unfoldable pub listed : Text → List Text → Bool
listed k [] = false
listed k (j ∷ l) = if text_eq j k then true else listed k l

pub listed-append : (k : Text) (l m : List Text) → listed k (l ++ m) ≡ (listed k l || listed k m)
unfolding listed
listed-append k [] m = refl
listed-append k (j ∷ l) m = ground (arith, listed-append k l m)

-- No text stands twice in the list.
unfoldable pub distinct : List Text → Bool
unfolding listed
distinct [] = true
distinct (k ∷ l) = not (listed k l) && distinct l

pub distinct-snoc :
    (k : Text) (l : List Text) → distinct (l ++ k ∷ []) ≡ (distinct l && not (listed k l))
unfolding distinct listed
distinct-snoc k [] = refl
distinct-snoc k (j ∷ l) =
    ground (arith, distinct-snoc k l, listed-append j l (k ∷ []), text_eq_comm j k)

-- The first element with the key `k`.
unfoldable pub find_key {ℓ} : {A : Type ℓ} → (A → Text) → Text → List A → Option A
find_key key k [] = none
find_key key k (a ∷ l) = if text_eq (key a) k then some a else find_key key k l

-- `for _, a := range l { m[key(a)] = value(a) }`
unfoldable pub index_by {ℓ κ} :
    {A : Type ℓ} {V : Type κ} → (A → Text) → (A → V) → List A → Map V → Map V
unfolding insert
index_by key value [] m = m
index_by key value (a ∷ l) m = index_by key value l (insert (key a) (value a) m)

-- What a lookup finds after the loop, where `found` is the last element with that key.
abbrev pub value_or {ℓ κ} : {A : Type ℓ} {V : Type κ} → (A → V) → Option A → Option V → Option V
value_or value none other = other
value_or value (some a) other = some (value a)

module _ {ℓ} {A : Type ℓ} (key : A → Text) where
  pub find_key-none :
      (k : Text) (l : List A) → listed k (map key l) ≡ false → find_key key k l ≡ none
  unfolding listed find_key
  find_key-none k [] h = refl
  find_key-none k (a ∷ l) h = ground (arith, find_key-none k l)

  pub listed-find_key : (k : Text) (l : List A) → listed k (map key l) ≡ is_some (find_key key k l)
  unfolding listed find_key
  listed-find_key k [] = refl
  listed-find_key k (a ∷ l) = ground (arith, listed-find_key k l)

  pub find_key-key : (k : Text) (l : List A) (a : A) → find_key key k l ≡ some a → key a ≡ k
  unfolding find_key
  find_key-key k [] a h = cc
  find_key-key k (b ∷ l) a h = ground (arith, find_key-key k l a, text_eq_iff (key b) k)

  pub lookup-index_by {κ} :
      {V : Type κ} (value : A → V) (k : Text) (l : List A) (m : Map V)
      → distinct (map key l) ≡ true
      → lookup k (index_by key value l m) ≡ value_or value (find_key key k l) (lookup k m)
  unfolding index_by distinct find_key
  lookup-index_by value k [] m h = refl
  lookup-index_by value k (a ∷ l) m h = ground (
    arith,
    lookup-index_by value k l (insert (key a) (value a) m),
    lookup-insert (key a) k (value a) m,
    text_eq_iff (key a) k,
    find_key-none k l,
  )

pub listed-head : (k : Text) (l : List Text) → listed k (k ∷ l) ≡ true
unfolding listed
listed-head k l = rw (text_eq_refl k)

pub listed-tail : (k j : Text) (l : List Text) → listed k l ≡ true → listed k (j ∷ l) ≡ true
unfolding listed
listed-tail k j l h = ground (arith, h)

module _ {ℓ} {A : Type ℓ} (key : A → Text) where
  pub All-find_key {κ} :
      (P : A → Type κ) (k : Text) (l : List A) {a : A} → All P l → find_key key k l ≡ some a → P a
  unfolding find_key
  All-find_key P k [] h e = absurd (cc)
  All-find_key P k (b ∷ l) {a} h e = elim (Bool-cases (text_eq (key b) k)) [
    | inl m ↦ let found : b ≡ a = ground (arith, m, e) in subst P found h.0
    | inr m ↦ All-find_key P k l h.1 (ground (arith, m, e))
  ]

  pub map_eq-find_key {κ} :
      {B : Type κ} (f g : A → B) (k : Text) (l : List A) {a : A}
      → map f l ≡ map g l
      → find_key key k l ≡ some a
      → f a ≡ g a
  unfolding find_key
  map_eq-find_key f g k [] h e = absurd (cc)
  map_eq-find_key f g k (b ∷ l) {a} h e = elim (Bool-cases (text_eq (key b) k)) [
    | inl m ↦
        let found : b ≡ a = ground (arith, m, e) in
        let same : f b ≡ g b = cc in subst (λ x. f x ≡ g x) found same
    | inr m ↦ map_eq-find_key f g k l (cc) (ground (arith, m, e))
  ]

  -- Where the keys are distinct, a search for an element's key finds that element.
  pub find_key_self :
      (l : List A) → distinct (map key l) ≡ true → All (λ a. find_key key (key a) l ≡ some a) l
  unfolding distinct find_key
  find_key_self [] h = tt
  find_key_self (b ∷ l) h = (
    rw (text_eq_refl (key b)),
    All-map (λ a. find_key key (key a) l ≡ some a) _ l
        (λ a found. ground (
          arith,
          found,
          text_eq_iff (key b) (key a),
          listed-find_key key (key a) l,
          listed-find_key key (key b) l,
        ))
        (find_key_self l (ground arith)),
  )

pub lookup-none {ℓ} :
    {V : Type ℓ} (k : Text) (m : Map V) → listed k (map (λ e. e.0) m) ≡ false → lookup k m ≡ none
unfolding listed lookup
lookup-none k [] h = refl
lookup-none k ((j, v) ∷ m) h = ground (arith, lookup-none k m)
