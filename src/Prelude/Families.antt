-- ===== src/Prelude/Families.antt =====
-- One value for each rank: a change at one rank, sums over the ranks below `n`, and a search.
use Prim.Native.Nat.{ℕ, zero, suc, ◌+◌, ◌<◌}
use mathlib.Core.Path.{◌≡◌, refl, ap}
use mathlib.Core.Logic.{◌⊎◌, inl, inr}
use mathlib.Core.Bool.{Bool, true, false}
use mathlib.Core.List.{List, [], ◌∷◌, ◌++◌}
use native.Mathlib.Omega.{arith}
use native.Mathlib.Decide.{dec_lt}
use mping.Prelude.Tests.{◌==◌, ==_refl, if◌then◌else◌, Bool-cases}

module _ {ℓ} {A : Type ℓ} where
  abbrev pub update : (ℕ → A) → ℕ → A → ℕ → A
  update f i a j = if j == i then a else f j

  pub update_self : (f : ℕ → A) (i : ℕ) (a : A) → update f i a i ≡ a
  update_self f i a = rw (==_refl i) refl

  -- `weight` may depend on the rank.
  abbrev pub total : ℕ → (ℕ → A → ℕ) → (ℕ → A) → ℕ
  total zero weight f = 0
  total (suc n) weight f = weight n (f n) + total n weight f

  total-above :
      (n i : ℕ) (weight : ℕ → A → ℕ) (f : ℕ → A) (a : A)
      → (i < n → ⊥)
      → total n weight (update f i a) ≡ total n weight f
  total-above zero i weight f a h = refl
  total-above (suc n) i weight f a h =
      let rest = total-above n i weight f a (λ l. h (omega arith)) in
      let apart : (n == i) ≡ false = ground arith in rw apart (ap (λ t. weight n (f n) + t) rest)

  pub total-update :
      (n i : ℕ) (weight : ℕ → A → ℕ) (f : ℕ → A) (a : A)
      → i < n
      → total n weight (update f i a) + weight i (f i) ≡ total n weight f + weight i a
  total-update zero i weight f a h = absurd (omega arith)
  total-update (suc n) i weight f a h = elim (dec_lt i n) [
    | yes below ↦
        let apart : (n == i) ≡ false = ground arith in
        rw apart (omega (arith, total-update n i weight f a below))
    | no top ↦
        let same : i ≡ n = omega arith in
        rw (same, ==_refl n) (omega (arith, total-above n n weight f a (λ l. omega arith)))
  ]

  pub total-zero :
      (n : ℕ) (weight : ℕ → A → ℕ) (f : ℕ → A)
      → ((i : ℕ) → i < n → weight i (f i) ≡ 0)
      → total n weight f ≡ 0
  total-zero zero weight f h = refl
  total-zero (suc n) weight f h =
      omega (arith, h n (omega arith), total-zero n weight f (λ i l. h i (omega arith)))

  -- A rank that passes a test, or none.
  pub find_rank :
      (n : ℕ) (test : A → Bool) (f : ℕ → A)
      → ((i : ℕ) × (i < n) × (test (f i) ≡ true)) ⊎ ((i : ℕ) → i < n → test (f i) ≡ false)
  find_rank zero test f = inr (λ i l. absurd (omega arith))
  find_rank (suc n) test f = elim (Bool-cases (test (f n))) [
    | inl found ↦ inl (n, omega arith, found)
    | inr missed ↦ elim (find_rank n test f) [
      | inl (i, l, found) ↦ inl (i, omega arith, found)
      | inr none_below ↦ inr (λ i l. elim (dec_lt i n) [
        | yes below ↦ none_below i below
        | no top ↦ let same : i ≡ n = omega arith in rw same missed
      ])
    ]
  ]

  -- How many elements pass a test.
  abbrev pub count_if : (A → Bool) → List A → ℕ
  count_if test [] = 0
  count_if test (x ∷ xs) = (if test x then 1 else 0) + count_if test xs

  pub count_if-append :
      (test : A → Bool) (xs ys : List A)
      → count_if test (xs ++ ys) ≡ count_if test xs + count_if test ys
  count_if-append test [] ys = omega arith
  count_if-append test (x ∷ xs) ys = omega (arith, count_if-append test xs ys)

pub total-same {ℓ κ} :
    {A : Type ℓ} {B : Type κ} (n : ℕ) (v : ℕ → A → ℕ) (w : ℕ → B → ℕ) (f : ℕ → A) (g : ℕ → B)
    → ((i : ℕ) → v i (f i) ≡ w i (g i))
    → total n v f ≡ total n w g
total-same zero v w f g h = refl
total-same (suc n) v w f g h = omega (arith, h n, total-same n v w f g h)
