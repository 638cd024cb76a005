-- ===== src/Run/Identities.antt =====
-- internal/analyzer/run.go: disambiguateIdentities. Which receiver encloses a finding is read from
-- Go's syntax trees, and is a parameter.
use solidify.Base.{
  ltb, ◌==◌, if◌then◌else◌, length, get_elem?, any, Text, text, text_eq, text_lt, Map, slice,
  append_at, sort_with, ℕ, zero, suc, ◌+◌, ◌/◌, ◌%◌, Bool, true, false, not, Option, none, some,
  List, [], ◌∷◌, ◌++◌,
}
use solidify.Issues.Issue.{Issue, issue_identity_key}

unfoldable pub digits_of : ℕ → ℕ → Text
digits_of zero n = (48 + n % 10) ∷ []
digits_of (suc fuel) n =
    let more = digits_of fuel (n / 10) in
    if ltb n 10 then (48 + n) ∷ [] else more ++ (48 + n % 10) ∷ []

-- `%d`; there are no more digits than the number says.
abbrev pub decimal : ℕ → Text
decimal n = digits_of n n

-- The map from keys to indexes, and the keys in the order in which they came.
pub record KeyGroups : Type 0 where
  pub members : Map (List ℕ)
  pub keys : List Text

abbrev pub is_nil {ℓ} : {A : Type ℓ} → List A → Bool
is_nil [] = true
is_nil (a ∷ l) = false

-- One round of the first loop.
unfoldable pub add_member : ℕ → Issue → KeyGroups → KeyGroups
add_member index i g =
    let key = issue_identity_key i in
    record {
      members = append_at key (index ∷ []) g.members;
      keys = if is_nil (slice key g.members) then g.keys ++ key ∷ [] else g.keys;
    }

unfoldable pub group_members : ℕ → List Issue → KeyGroups → KeyGroups
group_members index [] g = g
group_members index (i ∷ issues) g = group_members (index + 1) issues (add_member index i g)

-- `issues[index]` is changed; an index out of range changes nothing.
unfoldable pub update_at : ℕ → (Issue → Issue) → List Issue → List Issue
update_at index f [] = []
update_at zero f (i ∷ issues) = f i ∷ issues
update_at (suc index) f (i ∷ issues) = i ∷ update_at index f issues

-- By file and offset.
abbrev pub before : Option Issue → Option Issue → Bool
before (some i) (some j) =
    if not (text_eq i.pos.filename j.pos.filename)
    then text_lt i.pos.filename j.pos.filename
    else ltb i.pos.offset j.pos.offset
before _ _ = false

abbrev pub in_source_order : List Issue → List ℕ → List ℕ
in_source_order issues members =
    sort_with (λ a b. before (get_elem? issues a) (get_elem? issues b)) members

abbrev pub add_receiver : (Issue → Text) → Issue → Issue
add_receiver receiver i =
    if is_nil (receiver i)
    then i
    else record i { identity = i.identity ++ (text ";receiver=" ++ receiver i) }

-- The loop that adds receivers.
unfoldable pub add_receivers : (Issue → Text) → List ℕ → List Issue → List Issue
add_receivers receiver [] issues = issues
add_receivers receiver (index ∷ members) issues =
    add_receivers receiver members (update_at index (add_receiver receiver) issues)

abbrev with_occurrence : ℕ → Issue → Issue
with_occurrence count i =
    if ltb 1 count
    then record i { identity = i.identity ++ (text ";occurrence=" ++ decimal count) }
    else i

-- One round of the loop that counts the places of each identity: the offsets met so far, and the
-- change to the finding.
unfoldable pub count_place : Map (List ℕ) → Issue → Map (List ℕ) × (Issue → Issue)
count_place positions i =
    let met = slice i.identity positions in
    if any (λ offset. offset == i.pos.offset) met
    then (positions, λ j. j)
    else (append_at i.identity (i.pos.offset ∷ []) positions, with_occurrence (length met + 1))

abbrev pub counted : Map (List ℕ) → Option Issue → Map (List ℕ) × (Issue → Issue)
counted positions none = (positions, λ j. j)
counted positions (some i) = count_place positions i

unfoldable pub number_places : Map (List ℕ) → List ℕ → List Issue → List Issue
number_places positions [] issues = issues
number_places positions (index ∷ members) issues =
    let (positions', change) = counted positions (get_elem? issues index) in
    number_places positions' members (update_at index change issues)

-- The findings of one key.
unfoldable pub disambiguate_members : (Issue → Text) → List ℕ → List Issue → List Issue
disambiguate_members receiver members issues =
    let sorted = in_source_order issues members in
    number_places [] sorted (add_receivers receiver sorted issues)

unfoldable pub disambiguate_keys :
    (Issue → Text) → Map (List ℕ) → List Text → List Issue → List Issue
disambiguate_keys receiver groups [] issues = issues
disambiguate_keys receiver groups (key ∷ keys) issues =
    let members = slice key groups in
    let issues' =
      if ltb (length members) 2 then issues else disambiguate_members receiver members issues in
    disambiguate_keys receiver groups keys issues'

unfoldable pub disambiguate_identities : (Issue → Text) → List Issue → List Issue
disambiguate_identities receiver issues =
    let g = group_members 0 issues (record { members = []; keys = [] }) in
    disambiguate_keys receiver g.members g.keys issues
