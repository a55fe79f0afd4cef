-- ===== src/Sort/Tests.antt =====
-- Five samples, two splitters.
use mping.Prelude.{
  ◌∙◌, replicate, length-replicate, ℕ, ◌+◌, ◌*◌, ◌<◌, ◌≡◌, refl, true, false, ltb, List, [], ◌∷◌,
  length, get_elem?, get_or, none, some, arith,
}
use mping.Reduce.{log2l}
use mping.Sort.{oversampling_ratio, sort_list, pick_splitters, build_buckets}
use mping.Sort.Order.{build_buckets-order}
use mping.Sort.Splitters.{pick_splitters-none, pick_splitters-lone_rank, pick_splitters-some}

abbrev samples : List ℕ
samples = 5 ∷ 3 ∷ 9 ∷ 1 ∷ 7 ∷ []

ltb_trans : (a b c : ℕ) → ltb a b ≡ true → ltb b c ≡ true → ltb a c ≡ true
ltb_trans a b c h k = ground arith

pick_splitters-some_example :
    (splitters : List ℕ) × (pick_splitters ltb 0 2 2 samples ≡ some splitters)
    × (length splitters ≡ 2)
    × ((j : ℕ) → j < 2 → get_elem? splitters j ≡ get_elem? (sort_list ltb samples) (2 * (j + 1)))
pick_splitters-some_example = pick_splitters-some ltb 0 2 2 samples (omega arith) (omega arith)

pick_splitters-none_example : pick_splitters ltb 0 2 3 samples ≡ none
pick_splitters-none_example = pick_splitters-none ltb 0 2 3 samples (omega arith) (omega arith)

one_bucket : get_elem? (get_or (build_buckets ltb (5 ∷ 9 ∷ []) samples) 0 []) 0 ≡ some 3
unfolding build_buckets
one_bucket = refl

other_bucket : get_elem? (get_or (build_buckets ltb (5 ∷ 9 ∷ []) samples) 1 []) 0 ≡ some 5
unfolding build_buckets
other_bucket = refl

build_buckets-order_example : ltb 5 3 ≡ false
build_buckets-order_example =
    build_buckets-order ltb ltb_trans (5 ∷ 9 ∷ []) samples samples 0 1 (omega arith) (omega arith) 3
      5 0 0 one_bucket other_bucket

-- 128 ranks, of which one has elements: 113 samples of this rank and 112 of each other rank.
ratios : (oversampling_ratio 128 1 ≡ 113) × (oversampling_ratio 128 0 ≡ 112)
unfolding oversampling_ratio log2l
ratios = (refl, refl)

pick_splitters-lone_rank_example :
    pick_splitters ltb 0 127 (oversampling_ratio 128 1) (replicate 14337 0) ≡ none
pick_splitters-lone_rank_example =
    pick_splitters-lone_rank ltb 0 128 1 (replicate 14337 0) (omega arith) (omega arith) all_samples
      (omega (arith, ratios.0))
  where
    all_samples :
        length {A = ℕ} (replicate 14337 0)
        ≡ oversampling_ratio 128 1 + 127 * oversampling_ratio 128 0
    all_samples = length-replicate {A = ℕ} 14337 0 ∙ omega (arith, ratios.0, ratios.1)
