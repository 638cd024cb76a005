-- ===== src/Base/Lists.antt =====
-- Lists measured by native numbers, and the searches over slices that Go writes as `for … range`.
use Prim.Native.Nat.{ℕ, zero, suc, ◌+◌}
use mathlib.Core.Path.{◌≡◌, refl, sym, ap, ◌∙◌}
use mathlib.Core.Bool.{Bool, true, false, ◌&&◌, ◌||◌}
use mathlib.Core.List.{List, [], ◌∷◌, ◌++◌}
use mathlib.Core.Option.{Option, none, some}
use native.Mathlib.Omega.{arith}
use solidify.Base.Tests.{if◌then◌else◌}

module _ {ℓ} {A : Type ℓ} where
  abbrev pub length : List A → ℕ
  length [] = 0
  length (x ∷ xs) = suc (length xs)

  abbrev pub get_elem? : List A → ℕ → Option A
  get_elem? [] i = none
  get_elem? (x ∷ xs) zero = some x
  get_elem? (x ∷ xs) (suc i) = get_elem? xs i

  pub length-append : (xs ys : List A) → length (xs ++ ys) ≡ length xs + length ys
  length-append [] ys = omega arith
  length-append (x ∷ xs) ys = omega (arith, length-append xs ys)

  -- `out := in[:0]; for … if p(x) { out = append(out, x) }`
  abbrev pub keep : (A → Bool) → List A → List A
  keep p [] = []
  keep p (x ∷ xs) = if p x then x ∷ keep p xs else keep p xs

  -- Is there an element that passes `p`?
  abbrev pub any : (A → Bool) → List A → Bool
  any p [] = false
  any p (x ∷ xs) = p x || any p xs

  abbrev pub all : (A → Bool) → List A → Bool
  all p [] = true
  all p (x ∷ xs) = p x && all p xs

  -- A predicate of every element, by recursion.
  abbrev pub All {κ} : (A → Type κ) → List A → Type κ
  All P [] = Unit
  All P (x ∷ xs) = P x × All P xs

  pub all-All : (p : A → Bool) (xs : List A) → all p xs ≡ true → All (λ x. p x ≡ true) xs
  all-All p [] h = tt
  all-All p (x ∷ xs) h = (ground arith, all-All p xs (ground arith))

  pub All-append {κ} :
      (P : A → Type κ) (front back : List A) → All P front → All P back → All P (front ++ back)
  All-append P [] back _ there = there
  All-append P (a ∷ front) back (here, later) there = (here, All-append P front back later there)

  pub All-map {κ μ} :
      (P : A → Type κ) (Q : A → Type μ) (xs : List A) → ((x : A) → P x → Q x) → All P xs → All Q xs
  All-map P Q [] f h = tt
  All-map P Q (x ∷ xs) f h = (f x h.0, All-map P Q xs f h.1)

  pub All-and {κ μ} :
      (P : A → Type κ) (Q : A → Type μ) (xs : List A)
      → All P xs
      → All Q xs
      → All (λ x. P x × Q x) xs
  All-and P Q [] h k = tt
  All-and P Q (x ∷ xs) h k = ((h.0, k.0), All-and P Q xs h.1 k.1)

  pub keep-append : (p : A → Bool) (xs ys : List A) → keep p (xs ++ ys) ≡ keep p xs ++ keep p ys
  keep-append p [] ys = refl
  keep-append p (x ∷ xs) ys = ground (arith, keep-append p xs ys)

  -- Tests that agree keep the same.
  pub keep-eq : (p q : A → Bool) (l : List A) → ((a : A) → p a ≡ q a) → keep p l ≡ keep q l
  keep-eq p q [] h = refl
  keep-eq p q (a ∷ l) h = ground (arith, h a, keep-eq p q l h)

  pub any-append : (p : A → Bool) (l m : List A) → any p (l ++ m) ≡ (any p l || any p m)
  any-append p [] m = refl
  any-append p (a ∷ l) m = ground (arith, any-append p l m)

  pub any-eq : (p q : A → Bool) (l : List A) → ((a : A) → p a ≡ q a) → any p l ≡ any q l
  any-eq p q [] h = refl
  any-eq p q (a ∷ l) h = ground (arith, h a, any-eq p q l h)

  pub any-or : (p q : A → Bool) (l : List A) → any (λ a. p a || q a) l ≡ (any p l || any q l)
  any-or p q [] = refl
  any-or p q (a ∷ l) = ground (arith, any-or p q l)

  pub any-and : (b : Bool) (p : A → Bool) (l : List A) → any (λ a. b && p a) l ≡ (b && any p l)
  any-and b p [] = ground arith
  any-and b p (a ∷ l) = ground (arith, any-and b p l)

  pub any-false : (l : List A) → any (λ _. false) l ≡ false
  any-false [] = refl
  any-false (a ∷ l) = any-false l

-- The order of two searches is of no account.
pub any-swap {ℓ κ} :
    {A : Type ℓ} {B : Type κ} (r : A → B → Bool) (l : List A) (m : List B)
    → any (λ a. any (r a) m) l ≡ any (λ b. any (λ a. r a b) l) m
any-swap r [] m = sym (any-false m)
any-swap r (a ∷ l) m =
    ap (λ b. any (r a) m || b) (any-swap r l m) ∙ sym (any-or (r a) (λ b. any (λ c. r c b) l) m)
