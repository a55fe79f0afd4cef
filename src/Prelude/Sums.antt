-- ===== src/Prelude/Sums.antt =====
-- Sums and exclusive prefix sums of counts: `std::exclusive_scan` with the initial value 0, and the
-- loops over counts and displacements that the vectorized operations share.
use Prim.Native.Nat.{ℕ, zero, suc, ◌+◌, ◌≤◌, ◌<◌}
use mathlib.Core.Path.{◌≡◌, refl, ap}
use mathlib.Core.List.{List, [], ◌∷◌, ◌++◌}
use native.Mathlib.Omega.{arith}
use mping.Prelude.Lists.{length, get_or, take}

abbrev pub sum : List ℕ → ℕ
sum [] = 0
sum (x ∷ xs) = x + sum xs

-- The running sums before each element, from an initial value on.
abbrev pub exclusive_scan : ℕ → List ℕ → List ℕ
exclusive_scan acc [] = []
exclusive_scan acc (x ∷ xs) = acc ∷ exclusive_scan (acc + x) xs

pub length-exclusive_scan : (acc : ℕ) (xs : List ℕ) → length (exclusive_scan acc xs) ≡ length xs
length-exclusive_scan acc [] = refl
length-exclusive_scan acc (x ∷ xs) = ap suc (length-exclusive_scan (acc + x) xs)

-- Entry `i` is the initial value with the sum of the `i` elements before it.
pub get_or-exclusive_scan :
    (acc : ℕ) (xs : List ℕ) (i : ℕ)
    → i < length xs
    → get_or (exclusive_scan acc xs) i 0 ≡ acc + sum (take i xs)
get_or-exclusive_scan acc [] i h = absurd (omega arith)
get_or-exclusive_scan acc (x ∷ xs) zero h = omega arith
get_or-exclusive_scan acc (x ∷ xs) (suc i) h =
    omega (arith, get_or-exclusive_scan (acc + x) xs i (omega arith))

pub sum-append : (xs ys : List ℕ) → sum (xs ++ ys) ≡ sum xs + sum ys
sum-append [] ys = omega arith
sum-append (x ∷ xs) ys = omega (arith, sum-append xs ys)

-- The last displacement and the last count make the sum.
pub last-exclusive_scan :
    (acc : ℕ) (xs : List ℕ) (i : ℕ)
    → length xs ≡ suc i
    → get_or xs i 0 + get_or (exclusive_scan acc xs) i 0 ≡ acc + sum xs
last-exclusive_scan acc [] i h = absurd (omega arith)
last-exclusive_scan acc (x ∷ []) zero h = omega arith
last-exclusive_scan acc (x ∷ y ∷ xs) zero h = absurd (omega arith)
last-exclusive_scan acc (x ∷ xs) (suc i) h =
    omega (arith, last-exclusive_scan (acc + x) xs i (omega arith))

-- A block ends before the next one starts, and the last one at the sum.
pub exclusive_scan-block-le :
    (acc : ℕ) (xs : List ℕ) (i : ℕ)
    → i < length xs
    → get_or (exclusive_scan acc xs) i 0 + get_or xs i 0 ≤ acc + sum xs
exclusive_scan-block-le acc [] i h = absurd (omega arith)
exclusive_scan-block-le acc (x ∷ xs) zero h = omega arith
exclusive_scan-block-le acc (x ∷ xs) (suc i) h =
    omega (arith, exclusive_scan-block-le (acc + x) xs i (omega arith))

pub exclusive_scan-ge :
    (acc : ℕ) (xs : List ℕ) (i : ℕ) → i < length xs → acc ≤ get_or (exclusive_scan acc xs) i 0
exclusive_scan-ge acc [] i h = absurd (omega arith)
exclusive_scan-ge acc (x ∷ xs) zero h = omega arith
exclusive_scan-ge acc (x ∷ xs) (suc i) h =
    omega (arith, exclusive_scan-ge (acc + x) xs i (omega arith))

pub exclusive_scan-ascends :
    (acc : ℕ) (xs : List ℕ) (i j : ℕ)
    → i < j
    → j < length xs
    → get_or (exclusive_scan acc xs) i 0 + get_or xs i 0 ≤ get_or (exclusive_scan acc xs) j 0
exclusive_scan-ascends acc [] i j h l = absurd (omega arith)
exclusive_scan-ascends acc (x ∷ xs) i zero h l = absurd (omega arith)
exclusive_scan-ascends acc (x ∷ xs) zero (suc j) h l =
    exclusive_scan-ge (acc + x) xs j (omega arith)
exclusive_scan-ascends acc (x ∷ xs) (suc i) (suc j) h l =
    exclusive_scan-ascends (acc + x) xs i j (omega arith) (omega arith)
