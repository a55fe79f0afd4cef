-- ===== src/Casts.antt =====
-- include/__mping/checking_casts.hpp: the range test behind the checked integer casts, and the casts.
-- An integer type is its signedness and `std::numeric_limits<T>::digits`.
pub mod Range
mod Tests
use mping.Prelude.{
  ℕ, suc, ◌+◌, ◌-◌, ◌^◌, ◌≤◌, ◌<◌, Bool, true, false, ◌&&◌, Option, none, some, leb, ltb,
  if◌then◌else◌,
}
use mping.Prelude.Int.{ℤ, pos, negsuc, sub_ℕ, ◌≤ℤ◌, leb_ℤ, ltb_ℤ, emod}

pub record IntType : Type 0 where
  pub is_signed : Bool
  pub digits : ℕ

abbrev pub int32 : IntType
int32 = record { is_signed = true; digits = 31 }

abbrev pub size64 : IntType
size64 = record { is_signed = false; digits = 64 }

-- `std::numeric_limits<T>::max()` and `min()`.
abbrev pub limit_max : IntType → ℤ
limit_max t = pos (2 ^ t.digits - 1)

abbrev pub limit_min : IntType → ℤ
limit_min t = if t.is_signed then sub_ℕ 0 (2 ^ t.digits) else pos 0

-- A value that the type can hold.
abbrev pub Holds : IntType → ℤ → Type 0
Holds t v = (limit_min t ≤ℤ v) × (v ≤ℤ limit_max t)

-- The two's complement reading of a residue modulo 2 ^ (digits + 1).
unfoldable pub from_residue : ℕ → ℕ → ℤ
from_residue half w = if ltb w half then pos w else sub_ℕ w (half + half)

-- `static_cast<T>(value)`: the value modulo the size of the type.
unfoldable pub static_cast : IntType → ℤ → ℤ
unfolding from_residue emod
static_cast t v =
    if t.is_signed
    then from_residue (2 ^ t.digits) (emod v (2 ^ t.digits + 2 ^ t.digits))
    else pos (emod v (2 ^ t.digits))

abbrev pub to_uintmax : ℤ → ℕ
to_uintmax v = emod v (2 ^ 64)

abbrev pub to_intmax : ℤ → ℤ
to_intmax v = static_cast (record { is_signed = true; digits = 63 }) v

-- The four branches of `in_range`, by the signedness of the two types.
abbrev pub in_range_by : Bool → Bool → IntType → ℤ → Bool
in_range_by false false to v = leb (to_uintmax v) (to_uintmax (limit_max to))
in_range_by true true to v =
    leb_ℤ (to_intmax (limit_min to)) (to_intmax v) && leb_ℤ (to_intmax v) (to_intmax (limit_max to))
in_range_by true false to v =
    if ltb_ℤ v (pos 0) then false else leb (to_uintmax v) (to_uintmax (limit_max to))
in_range_by false true to v = leb (to_uintmax v) (to_uintmax (limit_max to))

pub in_range : IntType → IntType → ℤ → Bool
unfolding static_cast
in_range to from v = in_range_by from.is_signed to.is_signed to v

-- `KASSERT(in_range<To>(value))`: `none` is the failed assertion.
pub asserting_cast : IntType → IntType → ℤ → Option ℤ
asserting_cast to from v = if in_range to from v then some (static_cast to v) else none

pub data CastResult : Type 0 where
  ok : ℤ → CastResult
  range_error : CastResult

pub throwing_cast : IntType → IntType → ℤ → CastResult
throwing_cast to from v = if in_range to from v then ok (static_cast to v) else range_error
