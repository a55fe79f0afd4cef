-- ===== src/Collectives/ExscanTests.antt =====
-- The theorem on `exscan` at a concrete sum.
use mping.Prelude.{ℕ, ◌+◌, ◌<◌, ◌≡◌, refl, List, [], ◌∷◌, some, arith}
use mping.Collectives.{no_resize}
use mping.Collectives.Mpi.{exscan_now, exscan_now-Scans}
use mping.Collectives.Exscan.{exscan, exscan_inplace}
use mping.Collectives.Exscan.Prefixes.{exclusive}
use mping.Collectives.Exscan.Delivery.{scanning, scanning_inplace, exscan_inplace-exscan}

-- Two elements on each rank
abbrev own_pair : ℕ → List ℕ
own_pair r = (r + 1) ∷ 10 ∷ []

exscan_inplace-exscan_example :
    (received received' : ℕ → List ℕ) × (exscan 0 3 ◌+◌
        (some 0)
        exscan_now
        (λ r. scanning (own_pair r))
      ≡ some received)
    × (exscan_inplace 0 3 ◌+◌ (some 0) exscan_now (λ r. scanning_inplace no_resize (own_pair r))
        ≡ some received')
    × ((r : ℕ) → r < 3 → (received r ≡ exclusive ◌+◌ 0 2 own_pair r) × (received' r ≡ received r))
exscan_inplace-exscan_example =
    exscan_inplace-exscan 0 3 ◌+◌ 0 (omega arith) (λ a. omega arith) (λ a b c. omega arith) 2
      own_pair (λ r l. refl) exscan_now exscan_now-Scans (λ r. no_resize)

third_sum : exclusive ◌+◌ 0 2 own_pair 2 ≡ 3 ∷ 20 ∷ []
third_sum = refl
