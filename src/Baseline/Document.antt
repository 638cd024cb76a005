-- ===== src/Baseline/Document.antt =====
-- internal/baseline/baseline.go: entries, their validation, loading and reading. The strict JSON
-- decoding is left to Go's library: a `Decoded` is what it gives.
use solidify.Base.{
  ltb, leb, ◌==◌, if◌then◌else◌, is_some, length, keep, any, all, Text, text, text_lt, Map, insert,
  flag, listed, ◌>>=◌, Result, sort_by, to_lower, trim_space, ℕ, ◌+◌, ◌-◌, ◌*◌, ◌%◌, Bool, true,
  false, not, ◌&&◌, ◌||◌, Option, none, some, List, [], ◌∷◌, ok, err,
}
use solidify.Ids.{CheckId}
use solidify.Issues.Issue.{Issue, Platform, fingerprint}
use solidify.Registry.Index.{check_metadata}

pub record Entry : Type 0 where
  pub fingerprint : Text
  pub check_id : CheckId
  pub path : Text
  pub subject : Text
  pub reason : Text
  pub owner : Text
  pub expires : Text

pub record Document : Type 0 where
  pub version : ℕ
  pub entries : List Entry

pub record Annotation : Type 0 where
  pub reason : Text
  pub owner : Text
  pub expires : Text

abbrev pub version : ℕ
version = 5

abbrev pub legacy_version : ℕ
legacy_version = 4

abbrev is_hex_digit : ℕ → Bool
is_hex_digit c = (leb 48 c && leb c 57) || (leb 97 c && leb c 102)

-- `^[0-9a-f]{64}$`
unfoldable pub matches_fingerprint : Text → Bool
matches_fingerprint s = length s == 64 && all is_hex_digit s

-- The decimal number of the digits, or none when a byte is no digit.
unfoldable pub digits : ℕ → Text → Option ℕ
digits n [] = some n
digits n (c ∷ s) = if leb 48 c && leb c 57 then digits (n * 10 + (c - 48)) s else none

abbrev pub is_leap : ℕ → Bool
is_leap year = year % 4 == 0 && (not (year % 100 == 0) || year % 400 == 0)

unfoldable pub days_in : ℕ → ℕ → ℕ
days_in month year =
    if month == 2
    then (if is_leap year then 29 else 28)
    else if any (λ m. m == month) (4 ∷ 6 ∷ 9 ∷ 11 ∷ [])
    then 30
    else 31

abbrev pub is_date : Option ℕ → Option ℕ → Option ℕ → Bool
is_date (some year) (some month) (some day) =
    leb 1 month && leb month 12 && leb 1 day && leb day (days_in month year)
is_date _ _ _ = false

-- time.Parse("2006-01-02", s): is there an error?
unfoldable pub parses_as_date : Text → Bool
unfolding digits days_in
parses_as_date (y₁ ∷ y₂ ∷ y₃ ∷ y₄ ∷ dash₁ ∷ m₁ ∷ m₂ ∷ dash₂ ∷ d₁ ∷ d₂ ∷ []) =
    dash₁ == 45
    && dash₂ == 45
    && is_date (digits 0 (y₁ ∷ y₂ ∷ y₃ ∷ y₄ ∷ [])) (digits 0 (m₁ ∷ m₂ ∷ []))
        (digits 0 (d₁ ∷ d₂ ∷ []))
parses_as_date _ = false

pub data ReasonError : Type 0 where
  too_short : ReasonError
  placeholder : Text → ReasonError

unfoldable pub validate_reason : Text → Result ReasonError (Unit {0})
validate_reason reason =
    let reason = trim_space reason in
    if ltb (length reason) 12
    then err too_short
    else if listed (to_lower reason)
        (text "accepted for now" ∷ text "todo" ∷ text "ignore" ∷ text "temporary" ∷ [])
    then err (placeholder reason)
    else ok tt

pub data DocumentError : Type 0 where
  bad_fingerprint : ℕ → DocumentError
  duplicate : ℕ → Text → DocumentError
  unknown_check : ℕ → CheckId → DocumentError
  path_and_subject : ℕ → DocumentError
  bad_reason : ℕ → ReasonError → DocumentError
  bad_expiry : ℕ → DocumentError

abbrev reason_error : ℕ → Result ReasonError (Unit {0}) → Result DocumentError (Unit {0})
reason_error index (ok _) = ok tt
reason_error index (err e) = err (bad_reason index e)

-- The tests of an entry after that of its fingerprint.
unfoldable pub validate_entry : ℕ → Entry → Result DocumentError (Unit {0})
validate_entry index e =
    let expiry : Result DocumentError (Unit {0}) =
      if length e.expires == 0
      then ok tt
      else if parses_as_date e.expires
      then ok tt
      else err (bad_expiry index) in
    let reason : Result DocumentError (Unit {0}) = do
      _ ← reason_error index (validate_reason e.reason)
      expiry
    in if not (is_some (check_metadata e.check_id))
      then err (unknown_check index e.check_id)
      else if length (trim_space e.path) == 0 || length (trim_space e.subject) == 0
      then err (path_and_subject index)
      else reason

-- The loop from an index on, with the fingerprints that it has met.
unfoldable pub validate_entries : ℕ → Map Bool → List Entry → Result DocumentError (Unit {0})
validate_entries index seen [] = ok tt
validate_entries index seen (e ∷ entries) =
    let rest : Result DocumentError (Unit {0}) = do
      _ ← validate_entry index e
      validate_entries (index + 1) (insert e.fingerprint true seen) entries
    in if not (matches_fingerprint e.fingerprint)
      then err (bad_fingerprint index)
      else if flag e.fingerprint seen
      then err (duplicate index e.fingerprint)
      else rest

unfoldable pub validate_document : Document → Result DocumentError (Unit {0})
validate_document d = validate_entries 0 [] d.entries

abbrev pub sort_entries : List Entry → List Entry
sort_entries entries = sort_by (λ e. e.fingerprint) entries

pub data Decoded : Type 0 where
  legacy : List Text → Decoded
  current : Document → Decoded
  other : ℕ → Decoded

pub data LoadError : Type 0 where
  legacy_fingerprint : ℕ → LoadError
  invalid : DocumentError → LoadError
  unsupported : ℕ → LoadError

unfoldable pub legacy_entries : ℕ → List Text → Result LoadError (List Entry)
legacy_entries index [] = ok []
legacy_entries index (f ∷ fingerprints) =
    let rest : Result LoadError (List Entry) = do
      entries ← legacy_entries (index + 1) fingerprints
      ok (
          (record {
            fingerprint = f;
            check_id = [];
            path = [];
            subject = [];
            reason = [];
            owner = [];
            expires = [];
          })
          ∷ entries)
    in if matches_fingerprint f then rest else err (legacy_fingerprint index)

unfoldable pub load : Decoded → Result LoadError Document
load (legacy fingerprints) = do
  entries ← legacy_entries 0 fingerprints
  ok (record { version = legacy_version; entries = sort_entries entries })
load (current d) = elim (validate_document d) [
  | err e ↦ err (invalid e)
  | ok _ ↦ ok (record { version = d.version; entries = sort_entries d.entries })
]
load (other v) = err (unsupported v)

pub record ReadResult : Type 0 where
  pub document : Document
  pub accepted : Map Bool
  pub expired : List Entry

-- Has the review window elapsed on the day `today`, written YYYY-MM-DD?
abbrev pub is_expired : Text → Entry → Bool
is_expired today e = not (length e.expires == 0) && text_lt e.expires today

unfoldable pub read_entries : Text → Map Bool → List Entry → Map Bool
read_entries today accepted [] = accepted
read_entries today accepted (e ∷ entries) =
    if is_expired today e
    then read_entries today accepted entries
    else read_entries today (insert e.fingerprint true accepted) entries

unfoldable pub read_at : Document → Text → ReadResult
read_at d today = record {
  document = d;
  accepted = read_entries today [] d.entries;
  expired = keep (is_expired today) d.entries;
}

-- What is left of the findings when the accepted ones are taken away.
unfoldable pub filter : Platform → List Issue → Map Bool → List Issue
filter p issues accepted = keep (λ i. not (flag (fingerprint p i) accepted)) issues
