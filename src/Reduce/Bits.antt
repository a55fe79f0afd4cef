-- ===== src/Reduce/Bits.antt =====
-- include/__mping/plugin/reproducible_reduce.hpp: `tree_parent` and `tree_subtree_size`, on words of 64
-- bits. The operators on words go from the lowest bit up.
use mping.Prelude.{
  ℕ, zero, suc, ◌+◌, ◌-◌, ◌*◌, ◌/◌, ◌%◌, ◌^◌, ◌<◌, ◌≤◌, ◌≡◌, refl, ◌==◌, if◌then◌else◌, Option,
  some, none, arith,
}
use mping.Reduce.{power_of_two}

-- `a & b` on words of `width` bits.
abbrev pub and_word : ℕ → ℕ → ℕ → ℕ
and_word zero a b = 0
and_word (suc width) a b = (if a % 2 == 0 then 0 else b % 2) + 2 * and_word width (a / 2) (b / 2)

-- `a | b` on words of `width` bits.
abbrev pub or_word : ℕ → ℕ → ℕ → ℕ
or_word zero a b = 0
or_word (suc width) a b = (if a % 2 == 0 then b % 2 else 1) + 2 * or_word width (a / 2) (b / 2)

-- `i - 1` on a `size_t`
abbrev pub decrement : ℕ → ℕ
decrement i = (i + (2 ^ 64 - 1)) % 2 ^ 64

-- `none` where the assertion fails.
unfoldable pub tree_parent : ℕ → Option ℕ
tree_parent i = if i == 0 then none else some (and_word 64 i (decrement i))

unfoldable pub tree_subtree_size : ℕ → ℕ
tree_subtree_size i =
    let largest_child_index = or_word 64 i (decrement i) in
    (largest_child_index + 1 + (2 ^ 64 - i)) % 2 ^ 64

-- `x << k`, where no bit is lost.
abbrev pub shifted : ℕ → ℕ → ℕ
shifted zero x = x
shifted (suc k) x = 2 * shifted k x

power_of_two-pos : (w : ℕ) → 0 < power_of_two w
power_of_two-pos zero = omega arith
power_of_two-pos (suc w) = omega (arith, power_of_two-pos w)

and_word_self : (w a : ℕ) → a < power_of_two w → and_word w a a ≡ a
and_word_self zero a h = omega arith
and_word_self (suc w) a h = let rest = and_word_self w (a / 2) (omega arith) in ground (arith, rest)

or_word_self : (w a : ℕ) → a < power_of_two w → or_word w a a ≡ a
or_word_self zero a h = omega arith
or_word_self (suc w) a h = let rest = or_word_self w (a / 2) (omega arith) in ground (arith, rest)

pub shifted-pos : (k m : ℕ) → 0 < shifted k (2 * m + 1)
shifted-pos zero m = omega arith
shifted-pos (suc k) m = omega (arith, shifted-pos k m)

and_word-shifted :
    (w k m : ℕ)
    → shifted k (2 * m + 1) < power_of_two w
    → and_word w (shifted k (2 * m + 1)) (shifted k (2 * m + 1) - 1) ≡ shifted k (2 * m)
and_word-shifted zero k m h = absurd (omega (arith, shifted-pos k m))
and_word-shifted (suc w) zero m h =
    let low : (2 * m + 1) / 2 ≡ m = omega arith in
    let high : (2 * m + 1 - 1) / 2 ≡ m = omega arith in
    rw (low, high, and_word_self w m (omega arith)) (ground arith)
and_word-shifted (suc w) (suc k) m h =
    let i = shifted k (2 * m + 1) in
    let pos = shifted-pos k m in
    let low : (2 * i) / 2 ≡ i = omega arith in
    let high : (2 * i - 1) / 2 ≡ i - 1 = omega (arith, pos) in
    rw (low, high, and_word-shifted w k m (omega arith)) (ground arith)

or_word-shifted :
    (w k m : ℕ)
    → shifted k (2 * m + 1) < power_of_two w
    → or_word w (shifted k (2 * m + 1)) (shifted k (2 * m + 1) - 1) + 1
      ≡ shifted k (2 * m + 1) + shifted k 1
or_word-shifted zero k m h = absurd (omega (arith, shifted-pos k m))
or_word-shifted (suc w) zero m h =
    let low : (2 * m + 1) / 2 ≡ m = omega arith in
    let high : (2 * m + 1 - 1) / 2 ≡ m = omega arith in
    rw (low, high, or_word_self w m (omega arith)) (ground arith)
or_word-shifted (suc w) (suc k) m h =
    let i = shifted k (2 * m + 1) in
    let pos = shifted-pos k m in
    let low : (2 * i) / 2 ≡ i = omega arith in
    let high : (2 * i - 1) / 2 ≡ i - 1 = omega (arith, pos) in
    let rest = or_word-shifted w k m (omega arith) in rw (low, high) (ground (arith, rest, pos))

pub shifted-le : (k m : ℕ) → shifted k 1 ≤ shifted k (2 * m + 1)
shifted-le zero m = omega arith
shifted-le (suc k) m = omega (arith, shifted-le k m)

decrement-pos : (i : ℕ) → 0 < i → i < 2 ^ 64 → decrement i ≡ i - 1
decrement-pos i h k = omega arith

size_word : power_of_two 64 ≡ 2 ^ 64
size_word = refl

-- The parent of the index that is an odd number shifted to the left by some bits, in a word of 64
-- bits, is the even number below that one shifted by as many bits: the lowest bit that is set is
-- cleared.
pub tree_parent-shifted :
    (k m : ℕ)
    → shifted k (2 * m + 1) < 2 ^ 64
    → tree_parent (shifted k (2 * m + 1)) ≡ some (shifted k (2 * m))
unfolding tree_parent
tree_parent-shifted k m h =
    let pos = shifted-pos k m in
    rw (decrement-pos (shifted k (2 * m + 1)) pos h, and_word-shifted 64 k m h)
      (ground (arith, pos))

-- The subtree of the index that is an odd number shifted to the left by some bits, in a word of 64
-- bits has as many indices as one shifted by as many bits.
pub tree_subtree_size-shifted :
    (k m : ℕ)
    → shifted k (2 * m + 1) < 2 ^ 64
    → tree_subtree_size (shifted k (2 * m + 1)) ≡ shifted k 1
unfolding tree_subtree_size
tree_subtree_size-shifted k m h =
    let pos = shifted-pos k m in
    let least = shifted-le k m in
    rw (decrement-pos (shifted k (2 * m + 1)) pos h)
      (rw (or_word-shifted 64 k m h) (omega (arith, least)))
