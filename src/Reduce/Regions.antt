-- ===== src/Reduce/Regions.antt =====
-- The regions of the ranks in a map from start indices.
use mping.Prelude.{
  ℕ, suc, ◌-◌, ◌<◌, ◌≤◌, ◌≡◌, refl, List, [], ◌∷◌, ◌++◌, length, get_or, some, arith,
}
use mping.Reduce.{upper_bound_position, tree_rank_from_index_map}

-- The keys are at least `least` and ascend, as the ones of a map do.
abbrev pub Ascending : ℕ → List (ℕ × ℕ) → Type 0
Ascending least [] = Unit {0}
Ascending least ((start, rank) ∷ start_indices) =
    (least ≤ start) × Ascending (suc start) start_indices

Ascending-le :
    (before rest : List (ℕ × ℕ)) (k b r : ℕ) → Ascending k (before ++ (b, r) ∷ rest) → k ≤ b
Ascending-le [] rest k b r h = h.0
Ascending-le ((x, q) ∷ before) rest k b r h =
    omega (arith, h.0, Ascending-le before rest (suc x) b r h.1)

upper_bound_position-region :
    (before after : List (ℕ × ℕ)) (k b e r s index : ℕ)
    → Ascending k (before ++ (b, r) ∷ (e, s) ∷ after)
    → b ≤ index
    → index < e
    → upper_bound_position (before ++ (b, r) ∷ (e, s) ∷ after) index ≡ suc (length before)
upper_bound_position-region [] after k b e r s index h low high = ground arith
upper_bound_position-region ((x, q) ∷ before) after k b e r s index h low high =
    let at_most = Ascending-le before ((e, s) ∷ after) (suc x) b r h.1 in
    let rest = upper_bound_position-region before after (suc x) b e r s index h.1 low high in
    ground (arith, at_most, rest)

get_or-behind :
    (before rest : List (ℕ × ℕ)) (y d : ℕ × ℕ) → get_or (before ++ y ∷ rest) (length before) d ≡ y
get_or-behind [] rest y d = refl
get_or-behind (x ∷ before) rest y d = get_or-behind before rest y d

-- In a map from start indices to ranks, whose keys ascend, every index from a start index on and
-- below the next one has the rank of that start index.
pub tree_rank_from_index_map-region :
    (before after : List (ℕ × ℕ)) (b e r s index : ℕ)
    → Ascending 0 (before ++ (b, r) ∷ (e, s) ∷ after)
    → b ≤ index
    → index < e
    → tree_rank_from_index_map (before ++ (b, r) ∷ (e, s) ∷ after) index ≡ some r
tree_rank_from_index_map-region before after b e r s index h low high =
    let at : suc (length before) - 1 ≡ length before = omega arith in
    rw
      (
        upper_bound_position-region before after 0 b e r s index h low high,
        at,
        get_or-behind before ((e, s) ∷ after) (b, r) (0, 0),
      )
      (ground arith)
