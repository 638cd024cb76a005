-- ===== src/Base/Ascii.antt =====
-- The functions of Go's `strings` that the program calls, on ASCII texts: over bytes from 0x80 on, Go
-- decodes characters for case and white space, and that is not modelled.
use Prim.Native.Nat.{ℕ, ◌+◌, ◌-◌}
use mathlib.Core.Bool.{Bool, true, false, ◌&&◌, ◌||◌}
use mathlib.Core.Path.{◌≡◌, refl}
use mathlib.Core.List.{List, [], ◌∷◌, ◌++◌, map, reverse}
use native.Mathlib.Omega.{arith}
use solidify.Base.Tests.{leb, ◌==◌, if◌then◌else◌}
use solidify.Base.Strings.{Text}

abbrev pub lower_byte : ℕ → ℕ
lower_byte c = if leb 65 c && leb c 90 then c + 32 else c

abbrev pub upper_byte : ℕ → ℕ
upper_byte c = if leb 97 c && leb c 122 then c - 32 else c

unfoldable pub to_lower : Text → Text
to_lower s = map lower_byte s

unfoldable pub to_upper : Text → Text
to_upper s = map upper_byte s

-- Tab, line feed, vertical tab, form feed, carriage return and space.
abbrev pub is_space : ℕ → Bool
is_space c = (leb 9 c && leb c 13) || c == 32

-- strings.TrimLeftFunc
unfoldable pub trim_left : (ℕ → Bool) → Text → Text
trim_left p [] = []
trim_left p (c ∷ s) = if p c then trim_left p s else c ∷ s

unfoldable pub trim_right : (ℕ → Bool) → Text → Text
trim_right p s = reverse (trim_left p (reverse s))

-- strings.TrimSpace
unfoldable pub trim_space : Text → Text
trim_space s = trim_right is_space (trim_left is_space s)

-- strings.ReplaceAll for single bytes
unfoldable pub replace_byte : ℕ → ℕ → Text → Text
replace_byte old new s = map (λ c. if c == old then new else c) s

-- strings.HasPrefix
unfoldable pub has_prefix : Text → Text → Bool
has_prefix s [] = true
has_prefix [] (d ∷ p) = false
has_prefix (c ∷ s) (d ∷ p) = c == d && has_prefix s p

-- s[len(p):], for a text with the prefix p
unfoldable pub without_prefix : Text → Text → Text
without_prefix s [] = s
without_prefix [] (d ∷ p) = []
without_prefix (c ∷ s) (d ∷ p) = without_prefix s p

-- strings.TrimPrefix
unfoldable pub trim_prefix : Text → Text → Text
trim_prefix s p = if has_prefix s p then without_prefix s p else s

-- strings.HasSuffix and strings.TrimSuffix
unfoldable pub has_suffix : Text → Text → Bool
has_suffix s p = has_prefix (reverse s) (reverse p)

unfoldable pub trim_suffix : Text → Text → Text
trim_suffix s p = if has_suffix s p then reverse (without_prefix (reverse s) (reverse p)) else s

-- strings.Contains
unfoldable pub contains : Text → Text → Bool
contains [] p = has_prefix [] p
contains (c ∷ s) p = has_prefix (c ∷ s) p || contains s p

pub has_prefix-append : (p s : Text) → has_prefix (p ++ s) p ≡ true
unfolding has_prefix
has_prefix-append [] s = refl
has_prefix-append (c ∷ p) s = ground (arith, has_prefix-append p s)

pub without_prefix-append : (p s : Text) → has_prefix s p ≡ true → p ++ without_prefix s p ≡ s
unfolding has_prefix without_prefix
without_prefix-append [] s h = refl
without_prefix-append (d ∷ p) [] h = ground arith
without_prefix-append (d ∷ p) (c ∷ s) h = ground (arith, without_prefix-append p s)

abbrev is_empty : Text → Bool
is_empty [] = true
is_empty (c ∷ s) = false

-- The word that a text begins with, empty where white space or the end comes first, and the words
-- after it.
unfoldable words : Text → Text × List Text
words [] = ([], [])
words (c ∷ s) =
    let (word, rest) = words s in
    if is_space c then ([], (if is_empty word then rest else word ∷ rest)) else (c ∷ word, rest)

-- strings.Fields
unfoldable pub fields : Text → List Text
unfolding words
fields s = let (word, rest) = words s in if is_empty word then rest else word ∷ rest
