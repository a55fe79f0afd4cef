-- ===== src/Reduce/Heights.antt =====
-- The logarithm and the tree height of include/__mping/plugin/reproducible_reduce.hpp by their meaning.
use mping.Prelude.{
  ℕ, zero, suc, ◌+◌, ◌*◌, ◌/◌, ◌≤◌, ◌<◌, ◌≡◌, inl, inr, ltb, leb, ◌==◌, Bool-cases, arith,
}
use mping.Reduce.{shift_loop, log2l, power_of_two, tree_height}

shift_loop-lem :
    (fuel i t : ℕ)
    → 0 < i
    → i < power_of_two (suc fuel)
    → (k : ℕ) × (shift_loop fuel i t ≡ t + k) × (power_of_two k ≤ i) × (i < power_of_two (suc k))
shift_loop-lem zero i t p h = (0, omega arith, omega arith, omega arith)
shift_loop-lem (suc fuel) i t p h = elim (Bool-cases (i / 2 == 0)) [
  | inl y ↦ rw y (0, omega arith, omega arith, let e : i / 2 ≡ 0 = ground arith in omega arith)
  | inr n ↦
      let (k, e, l, u) = shift_loop-lem fuel (i / 2) (suc t) (ground arith) (omega arith) in
      rw n (suc k, omega (arith, e), omega arith, omega arith)
]

-- For a 64-bit word that is not 0 the loop ends within its fuel, and gives the logarithm rounded
-- down.
pub log2l-bounds :
    (value : ℕ)
    → 0 < value
    → value < 18446744073709551616
    → (power_of_two (log2l value) ≤ value) × (value < 2 * power_of_two (log2l value))
unfolding log2l
log2l-bounds value p h =
    let (k, e, l, u) = shift_loop-lem 64 value 0 p (omega arith) in
    let e' : shift_loop 64 value 0 ≡ k = omega arith in rw e' (l, u)

pub power_mono : (a b : ℕ) → a ≤ b → power_of_two a ≤ power_of_two b
power_mono zero zero h = omega arith
power_mono zero (suc b) h = omega (arith, power_mono zero b (omega arith))
power_mono (suc a) zero h = absurd (omega arith)
power_mono (suc a) (suc b) h = omega (arith, power_mono a b (omega arith))

pub power-positive : (n : ℕ) → 0 < power_of_two n
power-positive zero = omega arith
power-positive (suc n) = omega (arith, power-positive n)

-- For any 64-bit number of elements the height is the least number of levels whose binary tree has
-- room for all of them.
pub tree_height-least :
    (global_size : ℕ)
    → global_size < 18446744073709551616
    → (global_size ≤ power_of_two (tree_height global_size))
      × ((h : ℕ) → global_size ≤ power_of_two h → tree_height global_size ≤ h)
unfolding tree_height
tree_height-least global_size w = elim (Bool-cases (global_size == 0)) [
  | inl y ↦ rw y (ground arith, λ h l. omega arith)
  | inr n ↦
      let p : 0 < global_size = ground arith in
      let (l, u) = log2l-bounds global_size p w in
      elim (Bool-cases (ltb (power_of_two (log2l global_size)) global_size)) [
        | inl y ↦
            rw (n, y)
              (
                upper (log2l global_size) global_size u,
                λ h le. above (log2l global_size) global_size h (ground arith) le,
              )
        | inr m ↦ rw (n, m) (ground arith, λ h le. below (log2l global_size) global_size h l le)
      ]
]
  where
    upper : (k n : ℕ) → n < 2 * power_of_two k → n ≤ power_of_two (k + 1)
    upper k n u = let e : k + 1 ≡ suc k = omega arith in rw e (omega arith)

    above : (k n h : ℕ) → power_of_two k < n → n ≤ power_of_two h → k + 1 ≤ h
    above k n h l le = elim (Bool-cases (leb h k)) [
      | inl y ↦ absurd (omega (arith, power_mono h k (ground arith)))
      | inr m ↦ ground arith
    ]

    below : (k n h : ℕ) → power_of_two k ≤ n → n ≤ power_of_two h → k ≤ h
    below k n h l le = elim (Bool-cases (leb k h)) [
      | inl y ↦ ground arith
      | inr m ↦ absurd (omega (arith, power-positive h, power_mono (suc h) k (ground arith)))
    ]
