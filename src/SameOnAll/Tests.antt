-- ===== src/SameOnAll/Tests.antt =====
-- `is_same_on_all_ranks` with a reduction that starts at rank 1.
use mping.Prelude.{ℕ, zero, suc, ◌≡◌, refl, false, ◌==◌, ==_iff, arith}
use mping.Collectives.{all_below}
use mping.SameOnAll.{
  ValueEqual, Order, rank, both, Covers, reduced, MpiAllreduce, Reduces, is_same_on_all_ranks,
  combine,
}
use mping.SameOnAll.Agreement.{is_same_on_all_ranks-agreement}

abbrev from_the_middle : Order
from_the_middle = both (both (rank 1) (rank 0)) (rank 2)

from_the_middle-Covers : Covers 3 from_the_middle
from_the_middle-Covers = record { all = λ r l. ground arith; only = λ r o. ground arith }

abbrev allreduce_now {ℓ} : {A : Type ℓ} → MpiAllreduce A
allreduce_now op values = reduced op values from_the_middle

allreduce_now-Reduces : Reduces {A = ValueEqual ℕ} 3 allreduce_now
allreduce_now-Reduces op values = (from_the_middle, from_the_middle-Covers, refl)

abbrev one_differs : ℕ → ℕ
one_differs zero = 5
one_differs (suc zero) = 5
one_differs (suc (suc r)) = 6

is_same_on_all_ranks-agreement_example :
    is_same_on_all_ranks ◌==◌ allreduce_now one_differs
    ≡ all_below 3 (λ r. one_differs r == one_differs 0)
is_same_on_all_ranks-agreement_example =
    is_same_on_all_ranks-agreement ◌==◌ ==_iff one_differs 3 allreduce_now (omega arith)
      allreduce_now-Reduces

difference_found : is_same_on_all_ranks ◌==◌ allreduce_now one_differs ≡ false
unfolding is_same_on_all_ranks combine
difference_found = refl
