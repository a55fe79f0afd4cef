-- ===== src/Reduce/Communicator/Shapes.antt =====
-- The shapes of the subtrees that a rank reduces.
use mping.Prelude.{ℕ, zero, suc, ◌+◌, ◌-◌, ◌*◌, ◌<◌, ◌≡◌, ap, ◌∙◌, min, dec_lt, arith}
use mping.Reduce.{power_of_two, tree_height, log2l}
use mping.Reduce.Bits.{shifted}
use mping.Reduce.Heights.{log2l-bounds, power_mono, power-positive, tree_height-least}
use mping.Reduce.Tree.{scale_mono, scale_even, scale_odd, shifted-scale}
use mping.Reduce.Communicator.Levels.{Subtree}

pub log2l-power : (k : ℕ) → power_of_two k < 18446744073709551616 → log2l (power_of_two k) ≡ k
log2l-power k small =
    let a = log2l (power_of_two k) in
    let (low, high) = log2l-bounds (power_of_two k) (power-positive k) small in
    elim (dec_lt a k) [
      | yes less ↦ absurd (omega (arith, high, power_mono (suc a) k (omega arith)))
      | no not_less ↦ elim (dec_lt k a) [
        | yes more ↦
            absurd (omega (arith, low, power-positive k, power_mono (suc k) a (omega arith)))
        | no not_more ↦ omega arith
      ]
    ]

power-add : (d j : ℕ) → power_of_two (d + j) ≡ power_of_two d * power_of_two j
power-add zero j = let e : 0 + j ≡ j = omega arith in ap power_of_two e ∙ omega arith
power-add (suc d) j =
    (let e : suc d + j ≡ suc (d + j) = omega arith in ap power_of_two e)
    ∙ (ap (λ t. 2 * t) (power-add d j) ∙ twice (power_of_two d) (power_of_two j))
  where
    twice : (a b : ℕ) → 2 * (a * b) ≡ 2 * a * b
    twice a b = grind arith

power_split : (y k : ℕ) → y < k → (r : ℕ) × (power_of_two k ≡ r * power_of_two (suc y))
power_split y k h =
    let d = k - suc y in
    (
      power_of_two d,
      (let e : k ≡ d + suc y = omega arith in ap power_of_two e) ∙ power-add d (suc y),
    )

-- An odd multiple that starts inside a range of an even number of steps ends inside it.
odd_inside : (p r j : ℕ) → 0 < p → 2 * j * p < r * (2 * p) → (2 * j + 1) * p < r * (2 * p)
odd_inside p r j pos h = elim (dec_lt j r) [
  | yes less ↦ omega (arith, scale_odd j p, scale_mono (suc j) r (2 * p) less, suc_scale j (2 * p))
  | no not_less ↦ absurd (omega (arith, scale_even j p, scale_mono r j (2 * p) (omega arith)))
]
  where
    suc_scale : (j q : ℕ) → suc j * q ≡ j * q + q
    suc_scale j q = grind arith

pub inner-Subtree :
    (global_size k m : ℕ)
    → shifted k (2 * m + 1) < global_size
    → Subtree global_size
        (shifted k (2 * m + 1))
        (min (global_size - 1) (shifted k (2 * m + 1) + power_of_two k - 1))
        k
inner-Subtree global_size k m h =
    let index = shifted k (2 * m + 1) in
    record {
      inside = omega arith;
      aligned = λ y below.
          let (r, split) = power_split y k below in
          (
            (2 * m + 1) * r,
            shifted-scale k (2 * m + 1)
                ∙ ap (λ t. (2 * m + 1) * t) split
                ∙ assoc (2 * m + 1) r (power_of_two (suc y)),
          );
      closed = λ y j below first beyond.
          let (r, split) = power_split y k below in
          let inside = λ (h : 2 * j * power_of_two y < power_of_two k).
            odd_inside (power_of_two y) r j (power-positive y) (omega (arith, split)) in
          elim (dec_lt (2 * j * power_of_two y) (power_of_two k)) [
            | yes less ↦ omega (arith, inside less, split)
            | no more ↦ absurd (omega (arith, power-positive k))
          ];
      bounded = omega (arith, power-positive k);
    }
  where
    assoc : (a b c : ℕ) → a * (b * c) ≡ a * b * c
    assoc a b c = grind arith

pub root-Subtree :
    (global_size : ℕ)
    → 0 < global_size
    → global_size < 18446744073709551616
    → Subtree global_size 0 (global_size - 1) (tree_height global_size)
root-Subtree global_size pos small = record {
  inside = omega arith;
  aligned = λ y below. (0, omega arith);
  closed = λ y j below first beyond. omega arith;
  bounded = omega (arith, (tree_height-least global_size small).0);
}
