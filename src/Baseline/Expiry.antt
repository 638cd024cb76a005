-- ===== src/Baseline/Expiry.antt =====
-- internal/baseline/baseline.go: ReadAt compares dates as strings.
use solidify.Base.{
  ltb, leb, ◌==◌, ==_iff, &&-true, is_some, length, all, Text, text_lt, ℕ, ◌+◌, ◌-◌, ◌*◌, ◌<◌, ◌≡◌,
  refl, sym, ◌∙◌, Bool, true, not, ◌&&◌, ◌||◌, Option, none, some, List, [], ◌∷◌, ◌++◌, arith,
}
use solidify.Baseline.Document.{Entry, digits, is_date, parses_as_date, is_expired}

abbrev is_digit : ℕ → Bool
is_digit c = leb 48 c && leb c 57

digits-is_some : (n : ℕ) (s : Text) → is_some (digits n s) ≡ all is_digit s
unfolding digits
digits-is_some n [] = refl
digits-is_some n (c ∷ s) = ground (arith, digits-is_some (n * 10 + (c - 48)) s)

abbrev or_zero : Option ℕ → ℕ
or_zero none = 0
or_zero (some n) = n

-- The number after the digits, where all are digits.
value : ℕ → Text → ℕ
value n [] = n
value n (c ∷ s) = value (n * 10 + (c - 48)) s

digits-value : (n : ℕ) (s : Text) → all is_digit s ≡ true → digits n s ≡ some (value n s)
unfolding digits value
digits-value n [] h = refl
digits-value n (c ∷ s) h = ground (arith, h, digits-value (n * 10 + (c - 48)) s)

value-lt :
    (m n : ℕ) (s t : Text)
    → length s ≡ length t
    → all is_digit s ≡ true
    → all is_digit t ≡ true
    → m < n
    → value m s < value n t
unfolding value
value-lt m n [] [] l hs ht h = h
value-lt m n [] (d ∷ t) l hs ht h = absurd (omega (arith, l))
value-lt m n (c ∷ s) [] l hs ht h = absurd (omega (arith, l))
value-lt m n (c ∷ s) (d ∷ t) l hs ht h =
    value-lt (m * 10 + (c - 48)) (n * 10 + (d - 48)) s t (omega (arith, l)) (ground arith)
      (ground arith) (ground arith)

text_lt-value :
    (n : ℕ) (s t : Text)
    → length s ≡ length t
    → all is_digit s ≡ true
    → all is_digit t ≡ true
    → text_lt s t ≡ ltb (value n s) (value n t)
unfolding value text_lt
text_lt-value n [] [] l hs ht = ground arith
text_lt-value n [] (d ∷ t) l hs ht = absurd (omega (arith, l))
text_lt-value n (c ∷ s) [] l hs ht = absurd (omega (arith, l))
text_lt-value n (c ∷ s) (d ∷ t) l hs ht = ground (
  arith,
  text_lt-value (n * 10 + (c - 48)) s t,
  value-lt (n * 10 + (c - 48)) (n * 10 + (d - 48)) s t,
  value-lt (n * 10 + (d - 48)) (n * 10 + (c - 48)) t s,
)

-- A date as the number yyyymmdd, and 0 for a text of another shape.
unfoldable pub day_number : Text → ℕ
unfolding digits
day_number (y₁ ∷ y₂ ∷ y₃ ∷ y₄ ∷ _ ∷ m₁ ∷ m₂ ∷ _ ∷ d₁ ∷ d₂ ∷ []) =
    or_zero (digits 0 (y₁ ∷ y₂ ∷ y₃ ∷ y₄ ∷ m₁ ∷ m₂ ∷ d₁ ∷ d₂ ∷ []))
day_number _ = 0

is_date-some :
    (year month day : Option ℕ)
    → is_date year month day ≡ true
    → (is_some year ≡ true) × (is_some month ≡ true) × (is_some day ≡ true)
is_date-some (some y) (some m) (some d) h = (refl, refl, refl)
is_date-some _ _ _ h = absurd (cc)

all-append {ℓ} :
    {A : Type ℓ} (p : A → Bool) (l m : List A)
    → all p l ≡ true
    → all p m ≡ true
    → all p (l ++ m) ≡ true
all-append p [] m hl hm = hm
all-append p (a ∷ l) m hl hm = ground (arith, hl, all-append p l m)

date-digits :
    (y₁ y₂ y₃ y₄ dash₁ m₁ m₂ dash₂ d₁ d₂ : ℕ)
    → parses_as_date (y₁ ∷ y₂ ∷ y₃ ∷ y₄ ∷ dash₁ ∷ m₁ ∷ m₂ ∷ dash₂ ∷ d₁ ∷ d₂ ∷ []) ≡ true
    → (dash₁ ≡ 45)
      × (dash₂ ≡ 45)
      × (all is_digit (y₁ ∷ y₂ ∷ y₃ ∷ y₄ ∷ m₁ ∷ m₂ ∷ d₁ ∷ d₂ ∷ []) ≡ true)
unfolding parses_as_date
date-digits y₁ y₂ y₃ y₄ dash₁ m₁ m₂ dash₂ d₁ d₂ h =
    let year = y₁ ∷ y₂ ∷ y₃ ∷ y₄ ∷ [] in
    let month = m₁ ∷ m₂ ∷ [] in
    let day = d₁ ∷ d₂ ∷ [] in
    let valid = is_date (digits 0 year) (digits 0 month) (digits 0 day) in
    let (dashes, date) = &&-true (dash₁ == 45 && dash₂ == 45) valid h in
    let (first, second) = &&-true (dash₁ == 45) (dash₂ == 45) dashes in
    let (y, m, d) = is_date-some (digits 0 year) (digits 0 month) (digits 0 day) date in
    (
      (==_iff dash₁ 45).0 first,
      (==_iff dash₂ 45).0 second,
      all-append is_digit year (month ++ day) (sym (digits-is_some 0 year) ∙ y) (
          all-append is_digit month day (sym (digits-is_some 0 month) ∙ m)
            (sym (digits-is_some 0 day) ∙ d)),
    )

-- Two texts that parse as dates compare as strings like the numbers yyyymmdd.
text_lt-day_number :
    (s t : Text)
    → parses_as_date s ≡ true
    → parses_as_date t ≡ true
    → text_lt s t ≡ ltb (day_number s) (day_number t)
unfolding day_number text_lt parses_as_date
text_lt-day_number (y₁ ∷ y₂ ∷ y₃ ∷ y₄ ∷ dash₁ ∷ m₁ ∷ m₂ ∷ dash₂ ∷ d₁ ∷ d₂ ∷ [])
      (z₁ ∷ z₂ ∷ z₃ ∷ z₄ ∷ dash₃ ∷ n₁ ∷ n₂ ∷ dash₄ ∷ e₁ ∷ e₂ ∷ []) hs ht =
    let (p₁, p₂, ds) = date-digits y₁ y₂ y₃ y₄ dash₁ m₁ m₂ dash₂ d₁ d₂ hs in
    let (p₃, p₄, dt) = date-digits z₁ z₂ z₃ z₄ dash₃ n₁ n₂ dash₄ e₁ e₂ ht in
    let s = y₁ ∷ y₂ ∷ y₃ ∷ y₄ ∷ m₁ ∷ m₂ ∷ d₁ ∷ d₂ ∷ [] in
    let t = z₁ ∷ z₂ ∷ z₃ ∷ z₄ ∷ n₁ ∷ n₂ ∷ e₁ ∷ e₂ ∷ [] in
    rw (p₁, p₂, p₃, p₄, digits-value 0 s ds, digits-value 0 t dt) (text_lt-value 0 s t refl ds dt)
text_lt-day_number _ _ hs ht = absurd (cc)

-- On a date, an entry whose expiry is empty or a date has expired exactly when its expiry is not
-- empty and, as a number yyyymmdd, below the date.
pub is_expired-day_number :
    (today : Text) (e : Entry)
    → parses_as_date today ≡ true
    → (length e.expires == 0 || parses_as_date e.expires) ≡ true
    → is_expired today e
      ≡ (not (length e.expires == 0) && ltb (day_number e.expires) (day_number today))
is_expired-day_number today e ht he = ground (arith, he, text_lt-day_number e.expires today)
