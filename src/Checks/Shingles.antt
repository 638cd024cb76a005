-- ===== src/Checks/Shingles.antt =====
-- internal/analyzer/ocp_util.go: similarityPercent is a percentage and does not depend on the order.
use solidify.Base.{
  if◌then◌else◌, length, keep, all, keep-eq, Text, text, text_eq, text_eq_iff, text_eq_comm, listed,
  distinct, ◌+◌, ◌-◌, ◌*◌, ◌≤◌, ◌≡◌, refl, sym, subst, Bool, true, false, not, ◌&&◌, ◌||◌, List, [],
  ◌∷◌, arith,
}
use native.Mathlib.Nat.{div-le_of_le-mul}
use solidify.Paths.Clean.{join}
use solidify.Checks.Similarity.{
  add_value, first, add_shingles, token_shingles, common, similarity_percent,
}

length-keep_le {ℓ} : {A : Type ℓ} (p : A → Bool) (l : List A) → length (keep p l) ≤ length l
length-keep_le p [] = omega arith
length-keep_le p (a ∷ l) = ground (arith, length-keep_le p l)

-- Where no text stands twice, one stands at most once.
count_one :
    (k : Text) (l : List Text)
    → distinct l ≡ true
    → length (keep (λ j. text_eq k j) l) ≡ (if listed k l then 1 else 0)
unfolding distinct listed
count_one k [] h = refl
count_one k (j ∷ l) h = ground (arith, count_one k l, text_eq_comm k j, text_eq_iff k j)

-- Two tests that never hold at once.
length-keep_or {ℓ} :
    {A : Type ℓ} (p q : A → Bool) (l : List A)
    → all (λ a. not (p a && q a)) l ≡ true
    → length (keep (λ a. p a || q a) l) ≡ length (keep p l) + length (keep q l)
length-keep_or p q [] h = refl
length-keep_or p q (a ∷ l) h = ground (arith, length-keep_or p q l)

apart_from :
    (k : Text) (a l : List Text)
    → listed k a ≡ false
    → all (λ j. not (text_eq k j && listed j a)) l ≡ true
apart_from k a [] h = refl
apart_from k a (j ∷ l) h = ground (arith, apart_from k a l h, text_eq_iff k j)

common-nil : (b : List Text) → common b [] ≡ 0
unfolding listed
common-nil [] = refl
common-nil (k ∷ b) = common-nil b

-- Of two sets, each has as many values of the other.
common_comm : (a b : List Text) → distinct a ≡ true → distinct b ≡ true → common a b ≡ common b a
unfolding distinct
common_comm [] b h k = sym (common-nil b)
common_comm (x ∷ a) b h k = ground (
  arith,
  common_comm a b,
  count_one x b k,
  length-keep_or (λ y. text_eq x y) (λ y. listed y a) b,
  apart_from x a b,
  keep-eq (λ y. listed y (x ∷ a)) (λ y. text_eq x y || listed y a) b,
)

common-le : (a b : List Text) → distinct a ≡ true → distinct b ≡ true → common a b ≤ length b
common-le a b h k =
    subst (λ n. n ≤ length b) (sym (common_comm a b h k))
      (length-keep_le (λ value. listed value a) b)

similarity_percent_comm :
    (a b : List Text)
    → distinct a ≡ true
    → distinct b ≡ true
    → similarity_percent a b ≡ similarity_percent b a
unfolding similarity_percent
similarity_percent_comm a b h k = ground (arith, common_comm a b h k)

similarity_percent-le :
    (a b : List Text) → distinct a ≡ true → distinct b ≡ true → similarity_percent a b ≤ 100
unfolding similarity_percent
similarity_percent-le a b h k =
    let bound =
      div-le_of_le-mul (length a + length b - common a b) {m = 100 * common a b} {n = 100}
        (omega (arith, common-le a b h k, length-keep_le (λ value. listed value b) a)) in
    ground (arith, bound)

add_shingles-distinct :
    (tokens out : List Text) → distinct out ≡ true → distinct (add_shingles tokens out) ≡ true
unfolding add_shingles distinct
add_shingles-distinct [] out h = h
add_shingles-distinct (t ∷ tokens) out h =
    let out' = add_value (join (text "|") (first 5 (t ∷ tokens))) out in
    ground (arith, h, add_shingles-distinct tokens out')

token_shingles-distinct : (tokens : List Text) → distinct (token_shingles tokens) ≡ true
unfolding token_shingles distinct
token_shingles-distinct tokens = ground (arith, add_shingles-distinct tokens [] refl)

-- The similarity of two functions is at most 100 and is the same whichever comes first.
pub similarity_percent-tokens :
    (s t : List Text)
    → (similarity_percent (token_shingles s) (token_shingles t) ≤ 100)
      × (similarity_percent (token_shingles s) (token_shingles t)
          ≡ similarity_percent (token_shingles t) (token_shingles s))
similarity_percent-tokens s t =
    let apart = token_shingles-distinct s in
    let apart' = token_shingles-distinct t in
    (
      similarity_percent-le (token_shingles s) (token_shingles t) apart apart',
      similarity_percent_comm (token_shingles s) (token_shingles t) apart apart',
    )
