-- ===== src/Buckets.antt =====
-- The two loops by which the plugins of include/__mping/plugin sort the elements of a buffer into
-- consecutive blocks: one counts the elements of each block, one writes each element to the next free
-- place of its block. The children prove what they leave in the buffer.
pub mod Layout
pub mod Placed
pub mod Block
pub mod Filter
pub mod Inside
use mping.Prelude.{
  ℕ, zero, suc, ◌+◌, ◌<◌, List, [], ◌∷◌, ◌++◌, map, get_or, set, length, ◌==◌, if◌then◌else◌, ltb,
  Bool, true, ◌&&◌,
}

-- `++counts[i]`; there is no entry out of range to change.
abbrev pub increment : List ℕ → ℕ → List ℕ
increment [] i = []
increment (c ∷ cs) zero = suc c ∷ cs
increment (c ∷ cs) (suc i) = c ∷ increment cs i

module _ {ℓ} {A : Type ℓ} (key : A → ℕ) where
  -- `for (elem) ++counts[key(elem)];`
  unfoldable pub count_loop : List ℕ → List A → List ℕ
  count_loop counts [] = counts
  count_loop counts (x ∷ xs) = count_loop (increment counts (key x)) xs

  -- `for (elem) buffer[positions[key(elem)]++] = f(elem);`
  unfoldable pub place_loop {κ} : {B : Type κ} → (A → B) → List ℕ → List B → List A → List B
  place_loop f positions buffer [] = buffer
  place_loop f positions buffer (x ∷ xs) =
      place_loop f (increment positions (key x)) (set buffer (get_or positions (key x) 0) (f x)) xs

  -- Does this loop write inside a buffer of length `n` only? Outside of it is undefined.
  pub places_inside : ℕ → List ℕ → List A → Bool
  places_inside n positions [] = true
  places_inside n positions (x ∷ xs) =
      ltb (get_or positions (key x) n) n && places_inside n (increment positions (key x)) xs

  -- The elements with key `k`, in order.
  abbrev pub bucket : ℕ → List A → List A
  bucket k [] = []
  bucket k (x ∷ xs) = if key x == k then x ∷ bucket k xs else bucket k xs

  -- The buckets `k` to `k + m - 1`, one after the other.
  abbrev pub buckets_from : ℕ → ℕ → List A → List A
  buckets_from k zero xs = []
  buckets_from k (suc m) xs = bucket k xs ++ buckets_from (suc k) m xs

  -- Their sizes.
  abbrev pub sizes_from : ℕ → ℕ → List A → List ℕ
  sizes_from k zero xs = []
  sizes_from k (suc m) xs = length (bucket k xs) ∷ sizes_from (suc k) m xs

  abbrev pub Keys : ℕ → List A → Type 0
  Keys m [] = Unit {0}
  Keys m (x ∷ xs) = (key x < m) × Keys m xs
