-- ===== src/RankRanges.antt =====
-- include/__mping/rank_ranges.hpp: which ranks a list of MPI rank ranges contains. A range is given by
-- its first rank, its last rank and its stride, all of type `int`; the difference to the first rank may
-- overflow and the stride may be zero, which is undefined behaviour and `none` here.
pub mod Contains
mod Tests
use mping.Prelude.{
  ℕ, ◌+◌, ◌≡◌, Bool, true, false, ◌&&◌, ◌==◌, List, [], ◌∷◌, Option, none, some, if◌then◌else◌,
  kassert, ◌>>=◌, ◌>>◌,
}
use mping.Prelude.Int.{ℤ, pos, negsuc, pos_part, neg_part, ◌+ℤ◌, sub_ℕ, leb_ℤ, rem}
use mping.Casts.{int32, in_range}
use mping.Comm.{add_int}

pub record RankRange : Type 0 where
  pub first : ℤ
  pub last : ℤ
  pub stride : ℤ

abbrev pub negate : ℤ → ℤ
negate a = sub_ℕ (neg_part a) (pos_part a)

-- C++'s `a % b`: the sign of `b` plays no part.
pub rem_signed : ℤ → ℤ → Option ℤ
rem_signed a (pos n) = if n == 0 then none else some (rem a n)
rem_signed a (negsuc n) = some (rem a (n + 1))

abbrev pub is_zero : ℤ → Bool
is_zero a = pos_part a + neg_part a == 0

-- The test of one range.
pub in_rank_range : ℤ → RankRange → Option Bool
in_rank_range rank range = do
  diff_to_start ← add_int rank (negate range.first)
  remainder ← rem_signed diff_to_start range.stride
  some (leb_ℤ range.first rank && leb_ℤ rank range.last && is_zero remainder)

-- `contains`: `std::any_of` stops at the first range that has the rank.
pub contains : List RankRange → ℤ → Option Bool
contains [] rank = some false
contains (range ∷ ranges) rank = do
  found ← in_rank_range rank range
  elim found [ true ↦ some true | false ↦ contains ranges rank ]
