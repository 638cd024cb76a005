-- ===== src/Examples/Parallel.antt =====
-- internal/analyzer/ocp_parallel.go and ocp_util.go on three functions.
use solidify.Base.{
  All, Text, text, text_eq, text_lt, listed, insert_sorted, sort_by, ltb_ℤ, ◌≤◌, ◌≡◌, refl, true,
  Option, none, some, List, [], ◌∷◌, map, pos,
}
use solidify.Paths.Clean.{join}
use solidify.Config.Settings.{Config, default_config}
use solidify.Checks.Similarity.{add_shingles, token_shingles, similarity_percent}
use solidify.Checks.Shingles.{similarity_percent-tokens}
use solidify.Checks.Parallel.{
  FunctionShape, ParallelGroup, joins, emit_from, emit_ocp_parallel_implementations,
}
use solidify.Checks.Grouped.{IsLarge, emit_ocp_parallel_implementations-reports}

abbrev letters : Text → List Text
letters [] = []
letters (c ∷ s) = (c ∷ []) ∷ letters s

parallel_program : Unit {0}
unfolding emit_ocp_parallel_implementations emit_from joins similarity_percent token_shingles
    add_shingles join listed text_eq sort_by insert_sorted text_lt default_config
parallel_program = tt

-- One of three runs of five is shared, of two and two.
shared_run :
    similarity_percent
      (token_shingles (letters (text "abcdef")))
      (token_shingles (letters (text "bcdefg")))
    ≡ 33
unfolding parallel_program
shared_run = refl

similarity_percent-tokens_example :
    (similarity_percent
        (token_shingles (letters (text "abcdef")))
        (token_shingles (letters (text "bcdefg")))
      ≤ 100)
    × (similarity_percent
          (token_shingles (letters (text "abcdef")))
          (token_shingles (letters (text "bcdefg")))
        ≡ similarity_percent
            (token_shingles (letters (text "bcdefg")))
            (token_shingles (letters (text "abcdef"))))
similarity_percent-tokens_example =
    similarity_percent-tokens (letters (text "abcdef")) (letters (text "bcdefg"))

abbrev shape : Text → Text → FunctionShape
shape name type_key = record {
  name = name;
  shingles = text "a|b|c|d|e" ∷ text "b|c|d|e|f" ∷ [];
  type_key = type_key;
  nodes = 40;
  arity = 1;
  band = 4;
}

abbrev three_functions : List FunctionShape
three_functions =
    shape (text "app:StoreUser") (text "app.User")
    ∷ shape (text "app:StoreOrder") (text "app.Order")
    ∷ shape (text "app:StoreCart") (text "app.Cart")
    ∷ []

names_of : Option (List ParallelGroup) → Option (List (List Text))
names_of none = none
names_of (some groups) = some (map (λ g. g.all_names) groups)

one_group :
    names_of (emit_ocp_parallel_implementations default_config three_functions)
    ≡ some ((text "app:StoreCart" ∷ text "app:StoreOrder" ∷ text "app:StoreUser" ∷ []) ∷ [])
unfolding parallel_program names_of
one_group = refl

several : ltb_ℤ (pos 1) default_config.ocp_min_parallel_functions ≡ true
unfolding parallel_program
several = refl

emit_ocp_parallel_implementations-reports_example :
    (groups : List ParallelGroup) × (emit_ocp_parallel_implementations default_config
        three_functions
      ≡ some groups)
    × All (IsLarge default_config) groups
emit_ocp_parallel_implementations-reports_example =
    emit_ocp_parallel_implementations-reports default_config several three_functions

-- With groups of one there is a panic.
abbrev lone : Config
lone = record default_config { ocp_min_parallel_functions = pos 1 }

panics :
    emit_ocp_parallel_implementations lone (shape (text "app:Run") (text "app.Job") ∷ []) ≡ none
unfolding parallel_program
panics = refl
