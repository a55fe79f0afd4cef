-- ===== src/Reduce/Tests.antt =====
-- The theorems on heights, regions and subtrees at concrete sizes.
use mping.Prelude.{ℕ, ◌≡◌, List, [], ◌∷◌, some, arith}
use mping.Reduce.{tree_rank_from_index_map}
use mping.Reduce.Regions.{tree_rank_from_index_map-region}

abbrev start_indices : List (ℕ × ℕ)
start_indices = (0, 2) ∷ (4, 0) ∷ (9, 1) ∷ (12, 3) ∷ []

tree_rank_from_index_map-region_example : tree_rank_from_index_map start_indices 7 ≡ some 0
tree_rank_from_index_map-region_example =
    tree_rank_from_index_map-region ((0, 2) ∷ []) ((12, 3) ∷ []) 4 9 0 1 7
      (omega arith, (omega arith, (omega arith, (omega arith, tt)))) (omega arith) (omega arith)
