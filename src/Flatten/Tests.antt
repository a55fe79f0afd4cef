-- ===== src/Flatten/Tests.antt =====
-- Three messages, of which the second one is empty.
use mping.Prelude.{ℕ, List, [], ◌∷◌}
use mping.Flatten.{Flattened, flatten_nested}

abbrev three_messages : List (List ℕ)
three_messages = (4 ∷ 5 ∷ []) ∷ [] ∷ (6 ∷ []) ∷ []

abbrev flat : Flattened ℕ
flat = flatten_nested 0 3 three_messages

abbrev two_pairs : List (ℕ × List ℕ)
two_pairs = (2, 7 ∷ 8 ∷ []) ∷ (0, 9 ∷ []) ∷ []
