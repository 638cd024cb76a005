-- ===== src/Base/Sorting.antt =====
-- `sort.Slice` by a text key. Go leaves the order of elements with equal keys open; here they keep
-- their order, and no theorem rests on that.
use mathlib.Core.Path.{◌≡◌, refl, ◌∙◌, subst, sym}
use mathlib.Core.Bool.{Bool, false, not}
use mathlib.Core.Logic.{inl, inr}
use mathlib.Core.List.{List, [], ◌∷◌, ◌++◌, map, Perm, perm_middle, append-nil, append_assoc}
use mathlib.Core.List.Perm
use native.Mathlib.Omega.{arith}
use solidify.Base.Tests.{if◌then◌else◌, if_ind, Bool-cases}
use solidify.Base.Lists.{All, All-map, keep}
use solidify.Base.Strings.{Text, text_lt, text_lt-asymm, text_lt-neg_trans}
use solidify.Base.Maps.{listed}

module _ {ℓ} {A : Type ℓ} (key : A → Text) where
  unfoldable pub insert_sorted : A → List A → List A
  insert_sorted a [] = a ∷ []
  insert_sorted a (b ∷ l) = if text_lt (key b) (key a) then b ∷ insert_sorted a l else a ∷ b ∷ l

  unfoldable pub sort_by : List A → List A
  sort_by [] = []
  sort_by (a ∷ l) = insert_sorted a (sort_by l)

  insert_sorted-perm : (a : A) (l : List A) → Perm (insert_sorted a l) (a ∷ l)
  unfolding insert_sorted
  insert_sorted-perm a [] = Perm.rfl
  insert_sorted-perm a (b ∷ l) =
      if_ind (λ r. Perm r (a ∷ b ∷ l)) (text_lt (key b) (key a)) _ _
        (λ _. Perm.trans (Perm.cons b (insert_sorted-perm a l)) (Perm.swap a b l)) (λ _. Perm.rfl)

  -- Sorting only reorders.
  pub sort_by-perm : (l : List A) → Perm (sort_by l) l
  unfolding sort_by
  sort_by-perm [] = Perm.rfl
  sort_by-perm (a ∷ l) =
      Perm.trans (insert_sorted-perm a (sort_by l)) (Perm.cons a (sort_by-perm l))

  -- No element's key is below the key of one before it.
  abbrev pub IsSortedBy : List A → Type 0
  IsSortedBy [] = Unit
  IsSortedBy (a ∷ l) = All (λ b. text_lt (key b) (key a) ≡ false) l × IsSortedBy l

  listed-insert_sorted :
      (k : Text) (a : A) (l : List A)
      → listed k (map key (insert_sorted a l)) ≡ listed k (map key (a ∷ l))
  unfolding insert_sorted listed
  listed-insert_sorted k a [] = refl
  listed-insert_sorted k a (b ∷ l) = ground (arith, listed-insert_sorted k a l)

  -- The keys are the same before and after.
  pub listed-sort_by :
      (k : Text) (l : List A) → listed k (map key (sort_by l)) ≡ listed k (map key l)
  unfolding sort_by listed
  listed-sort_by k [] = refl
  listed-sort_by k (a ∷ l) =
      listed-insert_sorted k a (sort_by l) ∙ ground (arith, listed-sort_by k l)

  All-insert_sorted {κ} :
      (P : A → Type κ) (a : A) (l : List A) → P a → All P l → All P (insert_sorted a l)
  unfolding insert_sorted
  All-insert_sorted P a [] pa h = (pa, tt)
  All-insert_sorted P a (b ∷ l) pa h =
      if_ind (All P) (text_lt (key b) (key a)) _ _ (λ _. (h.0, All-insert_sorted P a l pa h.1))
        (λ _. (pa, h))

  insert_sorted-IsSortedBy : (a : A) (l : List A) → IsSortedBy l → IsSortedBy (insert_sorted a l)
  unfolding insert_sorted
  insert_sorted-IsSortedBy a [] h = (tt, tt)
  insert_sorted-IsSortedBy a (b ∷ l) h =
      if_ind IsSortedBy (text_lt (key b) (key a)) _ _
        (λ e. (
          All-insert_sorted (λ x. text_lt (key x) (key b) ≡ false) a l
              (text_lt-asymm (key b) (key a) e) h.0,
          insert_sorted-IsSortedBy a l h.1,
        ))
        (λ e. (
          (e, All-map _ _ l (λ x below. text_lt-neg_trans (key x) (key b) (key a) below e) h.0),
          h,
        ))

  pub sort_by-IsSortedBy : (l : List A) → IsSortedBy (sort_by l)
  unfolding sort_by
  sort_by-IsSortedBy [] = tt
  sort_by-IsSortedBy (a ∷ l) = insert_sorted-IsSortedBy a (sort_by l) (sort_by-IsSortedBy l)

  pub All-sort_by {κ} : (P : A → Type κ) (l : List A) → All P l → All P (sort_by l)
  unfolding sort_by
  All-sort_by P [] h = tt
  All-sort_by P (a ∷ l) h = All-insert_sorted P a (sort_by l) h.0 (All-sort_by P l h.1)

-- The elements that pass a test and those that do not are all the elements.
pub keep-perm {ℓ} :
    {A : Type ℓ} (p : A → Bool) (l : List A) → Perm (keep p l ++ keep (λ a. not (p a)) l) l
keep-perm p [] = Perm.rfl
keep-perm p (a ∷ l) = elim (Bool-cases (p a)) [
  | inl e ↦ rw (e) (Perm.cons a (keep-perm p l))
  | inr e ↦ rw (e) (Perm.trans (perm_middle (keep p l) _) (Perm.cons a (keep-perm p l)))
]

pub perm-append_comm {ℓ} : {A : Type ℓ} (l m : List A) → Perm (l ++ m) (m ++ l)
perm-append_comm [] m = subst (Perm m) (sym (append-nil m)) Perm.rfl
perm-append_comm (a ∷ l) m =
    Perm.trans (Perm.cons a (perm-append_comm l m)) (Perm.symm (perm_middle m l))

-- The first two of three parts change places.
pub perm-swap_parts {ℓ} : {A : Type ℓ} (l m n : List A) → Perm (l ++ (m ++ n)) (m ++ (l ++ n))
perm-swap_parts l m n =
    subst (λ x. Perm x (m ++ (l ++ n))) (append_assoc l m n)
      (subst (λ x. Perm ((l ++ m) ++ n) x) (append_assoc m l n)
        (Perm.append_right n (perm-append_comm l m)))
