-- ===== src/Paths/Cleaned.antt =====
-- filepath.Clean: a cleaned path is no longer than the path, but for the dot, and ends inside an
-- element, but for the root.
use mathlib.Core.List.{reverse-cons}
use solidify.Base.{
  ◌==◌, if◌then◌else◌, ==_iff, Bool-cases, length, length-append, all, Text, text_eq, text_eq-eq,
  has_prefix, reverse, ℕ, suc, ◌+◌, ◌-◌, ◌≤◌, ◌≡◌, refl, sym, ap, ◌∙◌, subst, ◌⊎◌, inl, inr, Bool,
  true, false, not, ◌&&◌, ◌||◌, List, [], ◌∷◌, ◌++◌, arith,
}
use solidify.Paths.Clean.{
  add_byte, split_on, join, dot, dot_dot, slash, go_up, clean_parts, clean, or_dot,
}

-- The bytes of the parts with a separator after each.
abbrev size : List Text → ℕ
size [] = 0
size (part ∷ parts) = length part + (1 + size parts)

-- Is there a last byte, and is it no slash?
abbrev pub ends_inside : Text → Bool
ends_inside [] = false
ends_inside (c ∷ []) = not (c == 47)
ends_inside (c ∷ d ∷ s) = ends_inside (d ∷ s)

abbrev is_part : Text → Bool
is_part p = length p == 0 || ends_inside p

size-split_on : (s : Text) → size (split_on 47 s) ≡ length s + 1
unfolding split_on
size-split_on [] = refl
size-split_on (c ∷ s) =
    elim (split_on 47 s)
        as (λ l.
          size l ≡ length s + 1
          → size (if c == 47 then [] ∷ l else add_byte c l) ≡ suc (length s) + 1) [
            | [] ↦ λ e. ground (arith, e)
            | part ∷ parts ↦ λ e. ground (arith, e)
          ]
      (size-split_on s)

length-join : (parts : List Text) → length (join slash parts) ≤ size parts - 1
unfolding join
length-join [] = omega arith
length-join (part ∷ []) = omega arith
length-join (part ∷ next ∷ parts) =
    ground
      (arith, length-append part (slash ++ join slash (next ∷ parts)), length-join (next ∷ parts))

size-go_up : (rooted : Bool) (kept : List Text) → size (go_up rooted kept) ≤ size kept + 3
unfolding go_up text_eq
size-go_up true [] = omega arith
size-go_up false [] = omega arith
size-go_up rooted (part ∷ kept) = ground arith

keeps : Bool → List Text → Text → List Text
keeps rooted kept part =
    if length part == 0 || text_eq part dot
    then kept
    else if text_eq part dot_dot
    then go_up rooted kept
    else part ∷ kept

size-keeps :
    (rooted : Bool) (kept : List Text) (part : Text)
    → size (keeps rooted kept part) ≤ size kept + (length part + 1)
unfolding keeps
size-keeps rooted kept part = elim (Bool-cases (text_eq part dot_dot)) [
  | inl e ↦
      let two : length part ≡ 2 = ap length (text_eq-eq part dot_dot e) in
      ground (arith, e, two, size-go_up rooted kept)
  | inr e ↦ ground (arith, e)
]

clean_parts-cons :
    (rooted : Bool) (kept : List Text) (part : Text) (parts : List Text)
    → clean_parts rooted kept (part ∷ parts) ≡ clean_parts rooted (keeps rooted kept part) parts
unfolding clean_parts keeps
clean_parts-cons rooted kept part parts = refl

size-clean_parts :
    (rooted : Bool) (kept parts : List Text)
    → size (clean_parts rooted kept parts) ≤ size kept + size parts
unfolding clean_parts
size-clean_parts rooted kept [] = omega arith
size-clean_parts rooted kept (part ∷ parts) = rw (clean_parts-cons rooted kept part parts) (
    omega
      (arith, size-keeps rooted kept part, size-clean_parts rooted (keeps rooted kept part) parts))

size-append : (l m : List Text) → size (l ++ m) ≡ size l + size m
size-append [] m = omega arith
size-append (p ∷ l) m = omega (arith, size-append l m)

size-reverse : (l : List Text) → size (reverse l) ≡ size l
size-reverse [] = refl
size-reverse (p ∷ l) =
    rw (reverse-cons p l) (omega (arith, size-append (reverse l) (p ∷ []), size-reverse l))

ends_inside-go_up :
    (rooted : Bool) (kept : List Text)
    → all ends_inside kept ≡ true
    → all ends_inside (go_up rooted kept) ≡ true
unfolding go_up text_eq
ends_inside-go_up true [] h = refl
ends_inside-go_up false [] h = refl
ends_inside-go_up rooted (part ∷ kept) h = ground arith

ends_inside-keeps :
    (rooted : Bool) (kept : List Text) (part : Text)
    → all ends_inside kept ≡ true
    → is_part part ≡ true
    → all ends_inside (keeps rooted kept part) ≡ true
unfolding keeps
ends_inside-keeps rooted kept part h k = ground (arith, ends_inside-go_up rooted kept h)

ends_inside-clean_parts :
    (rooted : Bool) (kept parts : List Text)
    → all ends_inside kept ≡ true
    → all is_part parts ≡ true
    → all ends_inside (clean_parts rooted kept parts) ≡ true
unfolding clean_parts
ends_inside-clean_parts rooted kept [] h k = h
ends_inside-clean_parts rooted kept (part ∷ parts) h k =
    rw (clean_parts-cons rooted kept part parts) (
      ends_inside-clean_parts rooted (keeps rooted kept part) parts
        (ends_inside-keeps rooted kept part h (ground arith)) (ground arith))

is_part-cons :
    (c : ℕ) (p : Text) → (c == 47) ≡ false → is_part p ≡ true → ends_inside (c ∷ p) ≡ true
is_part-cons c [] h k = ground arith
is_part-cons c (d ∷ p) h k = ground arith

split_on-is_part : (s : Text) → all is_part (split_on 47 s) ≡ true
unfolding split_on
split_on-is_part [] = refl
split_on-is_part (c ∷ s) =
    elim (split_on 47 s)
        as (λ l.
          all is_part l ≡ true → all is_part (if c == 47 then [] ∷ l else add_byte c l) ≡ true) [
            | [] ↦ λ e. ground (arith, e)
            | part ∷ parts ↦ λ e. ground (arith, e, is_part-cons c part)
          ]
      (split_on-is_part s)

ends_inside-append : (s t : Text) → ends_inside t ≡ true → ends_inside (s ++ t) ≡ true
ends_inside-append [] t h = h
ends_inside-append (c ∷ []) (d ∷ t) h = h
ends_inside-append (c ∷ []) [] h = absurd (ground arith)
ends_inside-append (c ∷ d ∷ s) t h = ends_inside-append (d ∷ s) t h

ends_inside-join :
    (part : Text) (parts : List Text)
    → all ends_inside (part ∷ parts) ≡ true
    → ends_inside (join slash (part ∷ parts)) ≡ true
unfolding join
ends_inside-join part [] h = ground arith
ends_inside-join part (next ∷ parts) h = ends_inside-append part (47 ∷ join slash (next ∷ parts)) (
    ends_inside-append (47 ∷ []) (join slash (next ∷ parts))
      (ends_inside-join next parts (ground arith)))

-- The elements that a path keeps, in their order.
elements_of : Bool → Text → List Text
elements_of rooted s = reverse (clean_parts rooted [] (split_on 47 s))

size-elements_of : (rooted : Bool) (s : Text) → size (elements_of rooted s) ≤ length s + 1
unfolding elements_of
size-elements_of rooted s = omega (
  arith,
  size-reverse (clean_parts rooted [] (split_on 47 s)),
  size-clean_parts rooted [] (split_on 47 s),
  size-split_on s,
)

length-or_dot : (x : Text) → length (or_dot x) ≤ 1 + (length x - 1)
length-or_dot [] = omega arith
length-or_dot (c ∷ x) = omega arith

elements_of-rooted : (s : Text) → elements_of true (47 ∷ s) ≡ elements_of true s
unfolding elements_of split_on clean_parts
elements_of-rooted s = refl

clean-cases :
    (s : Text)
    → (clean s ≡ or_dot (join slash (elements_of false s)))
      ⊎ ((t : Text) × (s ≡ 47 ∷ t) × (clean s ≡ slash ++ join slash (elements_of true t)))
unfolding clean has_prefix elements_of
clean-cases [] = inl refl
clean-cases (c ∷ s) = elim (Bool-cases (c == 47)) [
  | inl e ↦
      let same : c ≡ 47 = (==_iff c 47).0 e in
      inr (s, ap (λ d. d ∷ s) same, rw (same) (ap (λ l. 47 ∷ join slash l) (elements_of-rooted s)))
  | inr e ↦ inl (ground (arith, e))
]

pub length-clean : (s : Text) → length (clean s) ≤ 1 + (length s - 1)
length-clean s = elim (clean-cases s) [
  | inl e ↦ rw (e) (
      omega (
        arith,
        length-or_dot (join slash (elements_of false s)),
        length-join (elements_of false s),
        size-elements_of false s,
      ))
  | inr (t, st, e) ↦
      rw (e, st) (omega (arith, length-join (elements_of true t), size-elements_of true t))
]

-- The root, or a path that ends inside an element.
abbrev pub IsCleaned : Text → Type 0
IsCleaned p = (p ≡ slash) ⊎ (ends_inside p ≡ true)

all-append : (p : Text → Bool) (l m : List Text) → all p (l ++ m) ≡ (all p l && all p m)
all-append p [] m = refl
all-append p (a ∷ l) m = ground (arith, all-append p l m)

all-reverse : (p : Text → Bool) (l : List Text) → all p (reverse l) ≡ all p l
all-reverse p [] = refl
all-reverse p (a ∷ l) =
    rw (reverse-cons a l) (ground (arith, all-append p (reverse l) (a ∷ []), all-reverse p l))

ends_inside-elements_of : (rooted : Bool) (s : Text) → all ends_inside (elements_of rooted s) ≡ true
unfolding elements_of
ends_inside-elements_of rooted s =
    all-reverse ends_inside (clean_parts rooted [] (split_on 47 s))
    ∙ ends_inside-clean_parts rooted [] (split_on 47 s) refl (split_on-is_part s)

ends_inside-or_dot : (x : Text) → ends_inside x ≡ true → ends_inside (or_dot x) ≡ true
ends_inside-or_dot [] h = refl
ends_inside-or_dot (c ∷ x) h = h

join-IsCleaned :
    (parts : List Text)
    → all ends_inside parts ≡ true
    → IsCleaned (or_dot (join slash parts)) × IsCleaned (slash ++ join slash parts)
unfolding join
join-IsCleaned [] h = (inr refl, inl refl)
join-IsCleaned (part ∷ parts) h =
    let inside = ends_inside-join part parts h in
    (
      inr (ends_inside-or_dot (join slash (part ∷ parts)) inside),
      inr (ends_inside-append slash (join slash (part ∷ parts)) inside),
    )

pub clean-IsCleaned : (s : Text) → IsCleaned (clean s)
clean-IsCleaned s = elim (clean-cases s) [
  | inl e ↦
      subst IsCleaned (sym e)
        (join-IsCleaned (elements_of false s) (ends_inside-elements_of false s)).0
  | inr (t, st, e) ↦
      subst IsCleaned (sym e)
        (join-IsCleaned (elements_of true t) (ends_inside-elements_of true t)).1
]
