-- ===== src/RankRanges/Tests.antt =====
-- Two rank ranges.
use mping.Prelude.{◌≡◌, ◌↔◌, true, Bool, List, [], ◌∷◌, some, arith}
use mping.Prelude.Int.{pos}
use mping.RankRanges.{contains}
use mping.RankRanges.Contains.{Ascending, ranges_of, AnyMember, contains-members}

abbrev two_ranges : List Ascending
two_ranges =
    record { first = 1; last = 9; step = 2; first_in = omega arith }
    ∷ record { first = 20; last = 30; step = 0; first_in = omega arith }
    ∷ []

contains-members_example :
    (b : Bool) × (contains (ranges_of two_ranges) (pos 7) ≡ some b)
    × ((b ≡ true) ↔ AnyMember 7 two_ranges)
contains-members_example = contains-members 7 two_ranges (omega arith)
