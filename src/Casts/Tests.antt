-- ===== src/Casts/Tests.antt =====
-- Runs of the casts, and the theorems at concrete types.
use mping.Prelude.{◌≡◌, ◌↔◌, refl, arith, true, false, none, some}
use mping.Prelude.Int.{pos, negsuc}
use mping.Casts.{int32, size64, Holds, in_range, asserting_cast, throwing_cast, ok, range_error}
use mping.Casts.Range.{in_range_iff, throwing_cast_total}

in_range_runs :
    (in_range int32 size64 (pos 0x7fff_ffff) ≡ true)
    × (in_range int32 size64 (pos 0x8000_0000) ≡ false)
    × (in_range size64 int32 (negsuc 0) ≡ false)
unfolding in_range
in_range_runs = (refl, refl, refl)

asserting_cast_runs :
    (asserting_cast int32 size64 (pos 7) ≡ some (pos 7))
    × (asserting_cast size64 int32 (negsuc 6) ≡ none)
unfolding asserting_cast in_range
asserting_cast_runs = (refl, refl)

in_range_iff_example : (in_range int32 size64 (pos 12) ≡ true) ↔ Holds int32 (pos 12)
in_range_iff_example = in_range_iff int32 size64 (pos 12) (omega arith) (omega arith) (omega arith)

throwing_cast_total_example :
    (Holds size64 (negsuc 2) → throwing_cast size64 int32 (negsuc 2) ≡ ok (negsuc 2))
    × (¬ Holds size64 (negsuc 2) → throwing_cast size64 int32 (negsuc 2) ≡ range_error)
throwing_cast_total_example =
    throwing_cast_total size64 int32 (negsuc 2) (omega arith) (omega arith) (omega arith)
