-- ===== src/Exclude/Matches.antt =====
-- internal/analyzer/control.go: what a pattern with double stars matches.
use solidify.Base.{
  ◌==◌, Bool-cases, any, Text, text_eq, text_eq-eq, text_eq_refl, text_eq_iff, ℕ, ◌≡◌, refl, sym,
  ap, ◌∙◌, subst, ◌↔◌, ◌⊎◌, inl, inr, Bool, true, false, ◌||◌, some, List, [], ◌∷◌, ◌++◌, arith,
}
use solidify.Paths.Clean.{split_on}
use solidify.Exclude.Glob.{
  SegmentMatch, double_star, trim_slashes, suffixes, is_nil, match_parts, rest_of, match_deeper,
  doublestar_match,
}

-- Elements match one by one, and a double star stands for any number of them.
pub data Matches (g : SegmentMatch) : List Text → List Text → Type 0 where
  done : Matches g [] []
  segment :
      {pattern values : List Text} (part v : Text)
      → text_eq part double_star ≡ false
      → g part v ≡ some true
      → Matches g pattern values
      → Matches g (part ∷ pattern) (v ∷ values)
  stop :
      {pattern values : List Text}
      → Matches g pattern values
      → Matches g (double_star ∷ pattern) values
  skip :
      {pattern values : List Text} (v : Text)
      → Matches g (double_star ∷ pattern) values
      → Matches g (double_star ∷ pattern) (v ∷ values)

module _ (g : SegmentMatch) where
  skip_all : (values : List Text) → Matches g (double_star ∷ []) values
  skip_all [] = stop done
  skip_all (v ∷ values) = skip v (skip_all values)

  suffixes-Matches :
      (pattern values : List Text)
      → ((rest : List Text) → match_parts g pattern rest ≡ true → Matches g pattern rest)
      → any (match_parts g pattern) (suffixes values) ≡ true
      → Matches g (double_star ∷ pattern) values
  unfolding suffixes
  suffixes-Matches pattern [] sound h = stop (sound [] (h' (match_parts g pattern []) h))
    where
      h' : (b : Bool) → (b || false) ≡ true → b ≡ true
      h' true k = k
      h' false k = k
  suffixes-Matches pattern (v ∷ values) sound h =
      elim (Bool-cases (match_parts g pattern (v ∷ values))) [
        | inl e ↦ stop (sound (v ∷ values) e)
        | inr e ↦ skip v (suffixes-Matches pattern values sound (ground (arith, e, h)))
      ]

  match_parts-double_star :
      (part : Text) (pattern values : List Text)
      → text_eq part double_star ≡ true
      → match_parts g (part ∷ pattern) values
        ≡ (is_nil pattern || any (match_parts g pattern) (suffixes values))
  unfolding match_parts
  match_parts-double_star part pattern [] e = ground (arith, e)
  match_parts-double_star part pattern (v ∷ values) e = ground (arith, e)

  match_parts-Matches :
      (pattern values : List Text) → match_parts g pattern values ≡ true → Matches g pattern values
  unfolding match_parts
  match_parts-Matches [] [] h = done
  match_parts-Matches [] (v ∷ values) h = absurd (ground arith)
  match_parts-Matches (part ∷ pattern) values h = elim (Bool-cases (text_eq part double_star)) [
    | inl e ↦
        subst (λ d. Matches g (d ∷ pattern) values) (sym (text_eq-eq part double_star e))
          (deeper pattern (sym (match_parts-double_star part pattern values e) ∙ h)
            (match_parts-Matches pattern))
    | inr e ↦ one values e h (match_parts-Matches pattern)
  ]
    where
      deeper :
          (pattern : List Text)
          → (is_nil pattern || any (match_parts g pattern) (suffixes values)) ≡ true
          → ((rest : List Text) → match_parts g pattern rest ≡ true → Matches g pattern rest)
          → Matches g (double_star ∷ pattern) values
      deeper [] k sound = skip_all values
      deeper (p ∷ pattern) k sound = suffixes-Matches (p ∷ pattern) values sound k

      one :
          (values : List Text)
          → text_eq part double_star ≡ false
          → match_parts g (part ∷ pattern) values ≡ true
          → ((rest : List Text) → match_parts g pattern rest ≡ true → Matches g pattern rest)
          → Matches g (part ∷ pattern) values
      one [] e k sound = absurd (ground arith)
      one (v ∷ values) e k sound =
          segment part v e (ground (arith, e, k)) (sound values (ground (arith, e, k)))

  suffixes-head :
      (f : List Text → Bool) (values : List Text) → f values ≡ true → any f (suffixes values) ≡ true
  unfolding suffixes
  suffixes-head f [] h = ground (arith, h)
  suffixes-head f (v ∷ values) h = ground (arith, h)

  Matches-match_parts :
      {pattern values : List Text} → Matches g pattern values → match_parts g pattern values ≡ true
  unfolding match_parts suffixes
  Matches-match_parts done = refl
  Matches-match_parts (segment part v e m rest) = ground (arith, e, m, Matches-match_parts rest)
  Matches-match_parts (stop {pattern} {values} m) =
      match_parts-double_star double_star pattern values (text_eq_refl double_star)
      ∙ ground (arith, suffixes-head (match_parts g pattern) values (Matches-match_parts m))
  Matches-match_parts (skip {pattern} {values} v m) =
      let e = text_eq_refl double_star in
      match_parts-double_star double_star pattern (v ∷ values) e
      ∙ ground (
        arith,
        sym (match_parts-double_star double_star pattern values e) ∙ Matches-match_parts m,
      )

  -- Some of the first elements may be left out, but not all.
  abbrev pub MatchesInside : List Text → List Text → Type 0
  MatchesInside pattern values =
      (before : List Text) × (v : Text) × (rest : List Text) × (values ≡ before ++ (v ∷ rest))
      × Matches g pattern (v ∷ rest)

  match_deeper-MatchesInside :
      (pattern values : List Text)
      → match_deeper g pattern values ≡ true
      → MatchesInside pattern values
  unfolding match_deeper
  match_deeper-MatchesInside pattern [] h = absurd (ground arith)
  match_deeper-MatchesInside pattern (v ∷ values) h =
      elim (Bool-cases (match_parts g pattern (v ∷ values))) [
        | inl e ↦ ([], v, values, refl, match_parts-Matches pattern (v ∷ values) e)
        | inr e ↦
            let (before, w, rest, same, m) =
              match_deeper-MatchesInside pattern values (ground (arith, e, h)) in
            (v ∷ before, w, rest, ap (λ l. v ∷ l) same, m)
      ]

  MatchesInside-match_deeper :
      (pattern before : List Text) (v : Text) (rest : List Text)
      → Matches g pattern (v ∷ rest)
      → match_deeper g pattern (before ++ (v ∷ rest)) ≡ true
  unfolding match_deeper
  MatchesInside-match_deeper pattern [] v rest m = ground (arith, Matches-match_parts m)
  MatchesInside-match_deeper pattern (b ∷ before) v rest m =
      ground (arith, MatchesInside-match_deeper pattern before v rest m)

-- strings.Split never gives an empty slice.
split_on-cons :
    (sep : ℕ) (s : Text) → (part : Text) × (parts : List Text) × (split_on sep s ≡ part ∷ parts)
unfolding split_on
split_on-cons sep [] = ([], [], refl)
split_on-cons sep (c ∷ s) =
    let (part, parts, e) = split_on-cons sep s in
    elim (Bool-cases (c == sep)) [
      | inl m ↦ ([], split_on sep s, ground (arith, m))
      | inr m ↦ (c ∷ part, parts, ground (arith, m, e))
    ]

match_or_deeper :
    (g : SegmentMatch) (pattern values : List Text) (part : Text) (parts : List Text)
    → values ≡ part ∷ parts
    → (match_parts g pattern values || match_deeper g pattern (rest_of values))
      ≡ match_deeper g pattern values
unfolding match_deeper
match_or_deeper g pattern values part parts e = rw (e) refl

abbrev pub elements : Text → List Text
elements s = split_on 47 (trim_slashes s)

-- A pattern matches a path exactly when they are the same but for slashes around them, or when the
-- path's elements from some element on match the pattern's, where a double star stands for any
-- number of elements and every other element matches one.
pub doublestar_match_iff :
    (g : SegmentMatch) (pattern value : Text)
    → (doublestar_match g pattern value ≡ true) ↔ (
        (trim_slashes pattern ≡ trim_slashes value)
        ⊎ MatchesInside g (elements pattern) (elements value))
unfolding doublestar_match
doublestar_match_iff g pattern value =
    let (part, parts, e) = split_on-cons 47 (trim_slashes value) in
    let whole = match_or_deeper g (elements pattern) (elements value) part parts e in
    let same = text_eq_iff (trim_slashes pattern) (trim_slashes value) in
    (
      λ h. elim (Bool-cases (text_eq (trim_slashes pattern) (trim_slashes value))) [
        | inl m ↦ inl (same.0 m)
        | inr m ↦ inr (
            match_deeper-MatchesInside g (elements pattern) (elements value)
              (sym whole ∙ ground (arith, m, h)))
      ],
      λ c. elim c [
        | inl m ↦ ground (arith, same.1 m)
        | inr (before, v, rest, cut, m) ↦
            let deeper : match_deeper g (elements pattern) (elements value) ≡ true =
              ap (match_deeper g (elements pattern)) cut
              ∙ MatchesInside-match_deeper g (elements pattern) before v rest m in
            ground (arith, whole, deeper)
      ],
    )
