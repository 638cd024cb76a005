-- ===== src/Run/Unique.antt =====
-- internal/analyzer/run.go: disambiguateIdentities leaves a finding alone that shares its key with no other.
use solidify.Base.{
  ltb, ◌==◌, if◌then◌else◌, Bool-cases, if_ind, length, get_elem?, keep, all, Text, text_eq,
  text_eq_iff, Map, lookup, slice, slice-append_at, insert_with, sort_with, ℕ, zero, suc, ◌+◌, ◌<◌,
  ◌≡◌, refl, sym, ◌∙◌, inl, inr, Bool, true, false, not, ◌||◌, some, List, [], ◌∷◌, ◌++◌,
  append-nil, append_assoc, arith,
}
use solidify.Issues.Issue.{Issue, issue_identity_key}
use solidify.Run.Identities.{
  KeyGroups, add_member, group_members, update_at, add_receivers, number_places, in_source_order,
  disambiguate_members, disambiguate_keys, disambiguate_identities, counted, add_receiver,
}

-- The indexes of the findings with the key, from an index on.
indexes : Text → ℕ → List Issue → List ℕ
indexes k n [] = []
indexes k n (i ∷ issues) =
    let rest = indexes k (n + 1) issues in
    if text_eq (issue_identity_key i) k then n ∷ rest else rest

slice-group_members :
    (k : Text) (n : ℕ) (issues : List Issue) (g : KeyGroups)
    → slice k (group_members n issues g).members ≡ slice k g.members ++ indexes k n issues
unfolding group_members add_member indexes
slice-group_members k n [] g = sym (append-nil (slice k g.members))
slice-group_members k n (i ∷ issues) g = elim (Bool-cases (text_eq (issue_identity_key i) k)) [
  | inl e ↦ ground (
    arith,
    e,
    slice-group_members k (n + 1) issues (add_member n i g),
    slice-append_at (issue_identity_key i) k (n ∷ []) g.members,
    append_assoc (slice k g.members) (n ∷ []) (indexes k (n + 1) issues),
  )
  | inr e ↦ ground (
    arith,
    e,
    slice-group_members k (n + 1) issues (add_member n i g),
    slice-append_at (issue_identity_key i) k (n ∷ []) g.members,
  )
]

get_elem?-update_at :
    (j i : ℕ) (f : Issue → Issue) (issues : List Issue)
    → (j == i) ≡ false
    → get_elem? (update_at j f issues) i ≡ get_elem? issues i
unfolding update_at
get_elem?-update_at j i f [] h = refl
get_elem?-update_at zero zero f (x ∷ issues) h = absurd (ground arith)
get_elem?-update_at zero (suc i) f (x ∷ issues) h = refl
get_elem?-update_at (suc j) zero f (x ∷ issues) h = refl
get_elem?-update_at (suc j) (suc i) f (x ∷ issues) h =
    get_elem?-update_at j i f issues (ground arith)

-- The index is none of the members.
abbrev avoids : ℕ → List ℕ → Bool
avoids i members = all (λ j. not (j == i)) members

get_elem?-add_receivers :
    (receiver : Issue → Text) (i : ℕ) (members : List ℕ) (issues : List Issue)
    → avoids i members ≡ true
    → get_elem? (add_receivers receiver members issues) i ≡ get_elem? issues i
unfolding add_receivers
get_elem?-add_receivers receiver i [] issues h = refl
get_elem?-add_receivers receiver i (j ∷ members) issues h =
    get_elem?-add_receivers receiver i members (update_at j (add_receiver receiver) issues)
      (ground arith)
    ∙ get_elem?-update_at j i (add_receiver receiver) issues (ground arith)

get_elem?-number_places :
    (positions : Map (List ℕ)) (i : ℕ) (members : List ℕ) (issues : List Issue)
    → avoids i members ≡ true
    → get_elem? (number_places positions members issues) i ≡ get_elem? issues i
unfolding number_places
get_elem?-number_places positions i [] issues h = refl
get_elem?-number_places positions i (j ∷ members) issues h =
    let (positions', change) = counted positions (get_elem? issues j) in
    get_elem?-number_places positions' i members (update_at j change issues) (ground arith)
    ∙ get_elem?-update_at j i change issues (ground arith)

avoids-insert_with :
    (less : ℕ → ℕ → Bool) (i j : ℕ) (members : List ℕ)
    → avoids i (insert_with less j members) ≡ avoids i (j ∷ members)
unfolding insert_with
avoids-insert_with less i j [] = refl
avoids-insert_with less i j (m ∷ members) = ground (arith, avoids-insert_with less i j members)

avoids-sort_with :
    (less : ℕ → ℕ → Bool) (i : ℕ) (members : List ℕ)
    → avoids i (sort_with less members) ≡ avoids i members
unfolding sort_with
avoids-sort_with less i [] = refl
avoids-sort_with less i (m ∷ members) =
    avoids-insert_with less i m (sort_with less members)
    ∙ ground (arith, avoids-sort_with less i members)

get_elem?-disambiguate_members :
    (receiver : Issue → Text) (i : ℕ) (members : List ℕ) (issues : List Issue)
    → avoids i members ≡ true
    → get_elem? (disambiguate_members receiver members issues) i ≡ get_elem? issues i
unfolding disambiguate_members
get_elem?-disambiguate_members receiver i members issues h =
    let sorted = in_source_order issues members in
    let there : avoids i sorted ≡ true = avoids-sort_with _ i members ∙ h in
    get_elem?-number_places [] i sorted (add_receivers receiver sorted issues) there
    ∙ get_elem?-add_receivers receiver i sorted issues there

get_elem?-disambiguate_keys :
    (receiver : Issue → Text) (i : ℕ) (groups : Map (List ℕ)) (keys : List Text)
    (issues : List Issue)
    → ((k : Text) → (ltb (length (slice k groups)) 2 || avoids i (slice k groups)) ≡ true)
    → get_elem? (disambiguate_keys receiver groups keys issues) i ≡ get_elem? issues i
unfolding disambiguate_keys
get_elem?-disambiguate_keys receiver i groups [] issues h = refl
get_elem?-disambiguate_keys receiver i groups (k ∷ keys) issues h =
    let members = slice k groups in
    let changed =
      if ltb (length members) 2 then issues else disambiguate_members receiver members issues in
    get_elem?-disambiguate_keys receiver i groups keys changed h
    ∙ if_ind (λ l. get_elem? l i ≡ get_elem? issues i) (ltb (length members) 2) issues
        (disambiguate_members receiver members issues) (λ _. refl)
        (λ many.
          get_elem?-disambiguate_members receiver i members issues (ground (arith, h k, many)))

length-indexes :
    (k : Text) (n : ℕ) (issues : List Issue)
    → length (indexes k n issues) ≡ length (keep (λ j. text_eq (issue_identity_key j) k) issues)
unfolding indexes
length-indexes k n [] = refl
length-indexes k n (i ∷ issues) = ground (arith, length-indexes k (n + 1) issues)

avoids-indexes_below :
    (k : Text) (m n : ℕ) (issues : List Issue) → m < n → avoids m (indexes k n issues) ≡ true
unfolding indexes
avoids-indexes_below k m n [] h = refl
avoids-indexes_below k m n (i ∷ issues) h = ground (arith, avoids-indexes_below k m (n + 1) issues)

avoids-indexes :
    (k : Text) (n i : ℕ) (issues : List Issue) {x : Issue}
    → get_elem? issues i ≡ some x
    → text_eq (issue_identity_key x) k ≡ false
    → avoids (n + i) (indexes k n issues) ≡ true
unfolding indexes
avoids-indexes k n i [] e h = absurd (cc)
avoids-indexes k n zero (y ∷ issues) {x} e h =
    let same : y ≡ x = cc in
    let other : text_eq (issue_identity_key y) k ≡ false = rw (same) h in
    ground (arith, other, avoids-indexes_below k (n + 0) (n + 1) issues)
avoids-indexes k n (suc i) (y ∷ issues) {x} e h =
    let rest : avoids ((n + 1) + i) (indexes k (n + 1) issues) ≡ true =
      avoids-indexes k (n + 1) i issues e h in
    ground (arith, rest)

-- A finding whose key no other finding has is left in its place as it is.
pub disambiguate_identities-get_elem? :
    (receiver : Issue → Text) (issues : List Issue) (i : ℕ) {x : Issue}
    → get_elem? issues i ≡ some x
    → length (keep (λ j. text_eq (issue_identity_key j) (issue_identity_key x)) issues) ≡ 1
    → get_elem? (disambiguate_identities receiver issues) i ≡ some x
unfolding disambiguate_identities lookup
disambiguate_identities-get_elem? receiver issues i {x} e alone =
    let start : KeyGroups = record { members = []; keys = [] } in
    let g = group_members 0 issues start in
    get_elem?-disambiguate_keys receiver i g.members g.keys issues (λ k.
      elim (Bool-cases (text_eq (issue_identity_key x) k)) [
        | inl same ↦ ground (
          arith,
          alone,
          slice-group_members k 0 issues start,
          length-indexes k 0 issues,
          text_eq_iff (issue_identity_key x) k,
        )
        | inr other ↦
            ground
              (arith, slice-group_members k 0 issues start, avoids-indexes k 0 i issues e other)
      ])
    ∙ e
