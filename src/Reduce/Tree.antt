-- ===== src/Reduce/Tree.antt =====
-- The tree that a reduction follows, on the whole array and without ranks: what the reduction is to
-- compute.
use mping.Prelude.{
  ℕ, zero, suc, ◌+◌, ◌-◌, ◌*◌, ◌≤◌, ◌<◌, ◌≡◌, refl, ap, ◌∙◌, ltb, lt→ltb, if◌then◌else◌, false,
  arith,
}
use mping.Reduce.{power_of_two}
use mping.Reduce.Bits.{shifted}

module _ {ℓ} {A : Type ℓ} (op : A → A → A) (global_size : ℕ) (at : ℕ → A) where
  -- The value of the node of height `y` whose first element is `x`.
  pub node : ℕ → ℕ → A
  node zero x = at x
  node (suc y) x =
      let right = node y (x + power_of_two y) in
      if ltb (x + power_of_two y) global_size then op (node y x) right else node y x

  pub node-zero : (x : ℕ) → node zero x ≡ at x
  unfolding node
  node-zero x = refl

  pub node-op :
      (y x : ℕ)
      → x + power_of_two y < global_size
      → node (suc y) x ≡ op (node y x) (node y (x + power_of_two y))
  unfolding node
  node-op y x h = rw (lt→ltb (x + power_of_two y) global_size h) refl

  pub node-alone : (y x : ℕ) → global_size ≤ x + power_of_two y → node (suc y) x ≡ node y x
  unfolding node
  node-alone y x h =
      let none_right : ltb (x + power_of_two y) global_size ≡ false = ground arith in
      rw none_right refl

pub scale_mono : (a b p : ℕ) → a ≤ b → a * p ≤ b * p
scale_mono a b p h = grind arith

pub scale_even : (i p : ℕ) → 2 * i * p ≡ i * (2 * p)
scale_even i p = grind arith

pub scale_odd : (i p : ℕ) → (2 * i + 1) * p ≡ i * (2 * p) + p
scale_odd i p = grind arith

pub scale_pred : (c p : ℕ) → 0 < c → (c - 1) * p + p ≡ c * p
scale_pred zero p h = absurd (omega arith)
scale_pred (suc c) p h = let e : suc c - 1 ≡ c = omega arith in rw e (grind arith)

pub shifted-scale : (y x : ℕ) → shifted y x ≡ x * power_of_two y
shifted-scale zero x = omega arith
shifted-scale (suc y) x =
    let ih = shifted-scale y x in ap (λ t. 2 * t) ih ∙ (let p = power_of_two y in twice x p)
  where
    twice : (x p : ℕ) → 2 * (x * p) ≡ x * (2 * p)
    twice x p = grind arith
