-- ===== src/Grid/Sqrt.antt =====
-- Integer square roots, rounded down and up.
use mping.Prelude.{ℕ, zero, suc, ◌*◌, ◌≤◌, ◌<◌, ◌≡◌, ◌⊎◌, arith, leb, ◌==◌, if◌then◌else◌}

unfoldable pub floor_sqrt : ℕ → ℕ
floor_sqrt zero = 0
floor_sqrt (suc n) = let r = floor_sqrt n in if leb (suc r * suc r) (suc n) then suc r else r

unfoldable pub ceil_sqrt : ℕ → ℕ
ceil_sqrt n = if floor_sqrt n * floor_sqrt n == n then floor_sqrt n else suc (floor_sqrt n)

-- The root rounded down is the largest number whose square is at most `n`.
pub floor_sqrt_bounds :
    (n : ℕ) → (floor_sqrt n * floor_sqrt n ≤ n) × (n < suc (floor_sqrt n) * suc (floor_sqrt n))
unfolding floor_sqrt
floor_sqrt_bounds zero = omega arith
floor_sqrt_bounds (suc n) = ground (arith, floor_sqrt_bounds n)

pub ceil_sqrt_cases :
    (n : ℕ)
    → ((ceil_sqrt n ≡ floor_sqrt n) × (floor_sqrt n * floor_sqrt n ≡ n))
      ⊎ ((ceil_sqrt n ≡ suc (floor_sqrt n)) × (floor_sqrt n * floor_sqrt n < n))
unfolding ceil_sqrt
ceil_sqrt_cases n = ground (arith, floor_sqrt_bounds n)
