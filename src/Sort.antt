-- ===== src/Sort.antt =====
-- include/__mping/plugin/sort.hpp: the splitters and the buckets of the sample sort. `std::sort` is an
-- insertion sort here, and `std::upper_bound` the position of the first splitter behind an element,
-- which is what it finds in a sorted range. `std::log2` of a size, rounded down, is `log2l`.
pub mod Order
pub mod Splitters
mod Tests
use mping.Prelude.{
  ℕ, zero, suc, ◌+◌, ◌*◌, Bool, true, false, List, [], ◌∷◌, ◌++◌, Option, none, some, length, ◌==◌,
  get_elem?, set, take, replicate, if◌then◌else◌, ◌>>=◌,
}
use mping.Reduce.{log2l}
use mping.Blocks.{resize}

pub oversampling_ratio : ℕ → ℕ → ℕ
oversampling_ratio size local_size = 16 * log2l size + (if local_size == 0 then 0 else 1)

module _ {ℓ} {A : Type ℓ} (comp : A → A → Bool) where
  abbrev pub insert : A → List A → List A
  insert x [] = x ∷ []
  insert x (y ∷ ys) = if comp y x then y ∷ insert x ys else x ∷ y ∷ ys

  abbrev pub sort_list : List A → List A
  sort_list [] = []
  sort_list (x ∷ xs) = insert x (sort_list xs)

  -- The loop of `pick_splitters`, in place, from index `i` on for `n` splitters; a sample behind the end
  -- is undefined behaviour.
  abbrev pub pick_loop : ℕ → ℕ → ℕ → List A → Option (List A)
  pick_loop ratio zero i samples = some samples
  pick_loop ratio (suc n) i samples = do
    splitter ← get_elem? samples (ratio * (i + 1))
    pick_loop ratio n (suc i) (set samples i splitter)

  pub pick_splitters : A → ℕ → ℕ → List A → Option (List A)
  pick_splitters blank num_splitters ratio global_samples = do
    picked ← pick_loop ratio num_splitters 0 (sort_list global_samples)
    some (resize blank num_splitters picked)

  abbrev pub upper_bound : List A → A → ℕ
  upper_bound [] x = 0
  upper_bound (s ∷ splitters) x = if comp x s then 0 else suc (upper_bound splitters x)

  -- `buckets[i].push_back(x)`
  abbrev pub push_to : List (List A) → ℕ → A → List (List A)
  push_to [] i x = []
  push_to (b ∷ buckets) zero x = (b ++ x ∷ []) ∷ buckets
  push_to (b ∷ buckets) (suc i) x = b ∷ push_to buckets i x

  abbrev pub bucket_loop : List A → List (List A) → List A → List (List A)
  bucket_loop splitters buckets [] = buckets
  bucket_loop splitters buckets (x ∷ xs) =
      bucket_loop splitters (push_to buckets (upper_bound splitters x) x) xs

  pub build_buckets : List A → List A → List (List A)
  build_buckets splitters xs = bucket_loop splitters (replicate (length splitters + 1) []) xs
