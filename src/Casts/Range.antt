-- ===== src/Casts/Range.antt =====
-- The range test decides whether the target type holds the value, and a cast that passes keeps it.
use native.Mathlib.Nat.{mod-eq_of_lt, pow-le-pow_right, one-le-pow}
use mping.Prelude.{
  ℕ, ◌+◌, ◌-◌, ◌%◌, ◌^◌, ◌≤◌, ◌<◌, ◌≡◌, ◌↔◌, Bool, true, false, ◌&&◌, Bool-cases, inl, inr, arith,
  some, ap,
}
use mping.Prelude.Int.{ℤ, pos, negsuc, ◌≤ℤ◌, emod, sub_ℕ, leb_ℤ}
use mping.Casts.{
  IntType, Holds, limit_max, limit_min, from_residue, static_cast, in_range_by, in_range,
  asserting_cast, throwing_cast, ok, range_error, to_intmax,
}

-- A number below the modulus is its own residue.
emod_self : (v : ℤ) (m : ℕ) → pos 0 ≤ℤ v → v ≤ℤ pos (m - 1) → 0 < m → pos (emod v m) ≡ v
unfolding emod
emod_self (pos n) m h k p = ap pos (mod-eq_of_lt {n = n} {m = m} (omega arith))
emod_self (negsuc n) m h k p = absurd (omega arith)

-- Two's complement gives back a number of the signed range.
from_residue-emod :
    (v : ℤ) (m : ℕ)
    → sub_ℕ 0 m ≤ℤ v
    → v ≤ℤ pos (m - 1)
    → 0 < m
    → from_residue m (emod v (m + m)) ≡ v
unfolding emod from_residue
from_residue-emod (pos n) m h k p =
    rw (mod-eq_of_lt {n = n} {m = m + m} (omega arith)) (ground arith)
from_residue-emod (negsuc n) m h k p =
    rw (mod-eq_of_lt {n = n} {m = m + m} (ground arith)) (ground arith)

pow-pos : (d : ℕ) → 0 < 2 ^ d
pow-pos d = one-le-pow d 2 (omega arith)

-- The widest type of a signedness: what the static assertions on `digits` allow.
abbrev pub Fits : Bool → ℕ → Type 0
Fits true d = d ≤ 63
Fits false d = d ≤ 64

pow-le : (d e : ℕ) → d ≤ e → 2 ^ d ≤ 2 ^ e
pow-le d e h = pow-le-pow_right (omega arith) h

-- A value that an unsigned type of at most 64 bits holds is not changed by the cast to uintmax_t.
small_mod : (n d : ℕ) → d ≤ 64 → n < 2 ^ d → n % 2 ^ 64 ≡ n
small_mod n d h k = mod-eq_of_lt {n = n} {m = 2 ^ 64} (omega (arith, pow-le d 64 h))

limit_mod : (d : ℕ) → d ≤ 64 → (2 ^ d - 1) % 2 ^ 64 ≡ 2 ^ d - 1
limit_mod d h = small_mod (2 ^ d - 1) d h (omega (arith, pow-pos d))

to_intmax_self :
    (v : ℤ) (d : ℕ) → d ≤ 63 → sub_ℕ 0 (2 ^ d) ≤ℤ v → v ≤ℤ pos (2 ^ d - 1) → to_intmax v ≡ v
unfolding static_cast
to_intmax_self v d h lo hi =
    from_residue-emod v (2 ^ 63) (ground (arith, pow-le d 63 h, pow-pos d))
      (ground (arith, pow-le d 63 h, pow-pos d)) (omega arith)

abbrev int_type : Bool → ℕ → IntType
int_type s d = record { is_signed = s; digits = d }

-- The branches: the tests on the cast values are those on the values.
signed_branch :
    (dt df : ℕ) (v : ℤ)
    → dt ≤ 63
    → df ≤ 63
    → Holds (int_type true df) v
    → in_range_by true true (int_type true dt) v
      ≡ (leb_ℤ (limit_min (int_type true dt)) v && leb_ℤ v (limit_max (int_type true dt)))
signed_branch dt df v ht hf h = rw (
  to_intmax_self v df hf h.0 h.1,
  to_intmax_self (limit_max (int_type true dt)) dt ht (ground (arith, pow-pos dt)) (omega arith),
  to_intmax_self (limit_min (int_type true dt)) dt ht (ground (arith, pow-pos dt))
      (ground (arith, pow-pos dt)),
)

in_range_cases :
    (st sf : Bool) (dt df : ℕ) (v : ℤ)
    → Fits st dt
    → Fits sf df
    → Holds (int_type sf df) v
    → (in_range (int_type st dt) (int_type sf df) v ≡ true) ↔ Holds (int_type st dt) v
unfolding in_range
in_range_cases false false dt df (pos n) ht hf h =
    rw (small_mod n df hf (omega (arith, pow-pos df)), limit_mod dt ht) (ground arith)
in_range_cases false false dt df (negsuc n) ht hf h = absurd (omega arith)
in_range_cases true true dt df v ht hf h = rw (signed_branch dt df v ht hf h) (ground arith)
in_range_cases false true dt df (pos n) ht hf h =
    rw (small_mod n df (omega arith) (omega (arith, pow-pos df)), limit_mod dt ht) (ground arith)
in_range_cases false true dt df (negsuc n) ht hf h = ground arith
in_range_cases true false dt df (pos n) ht hf h =
    rw (small_mod n df hf (omega (arith, pow-pos df)), limit_mod dt (omega arith)) (ground arith)
in_range_cases true false dt df (negsuc n) ht hf h = absurd (omega arith)

-- `in_range<To>(value)` is true exactly when the type To can hold the value, for any two types,
-- each signed or unsigned, of at most 64 bits, and any value of the type From.
pub in_range_iff :
    (to from : IntType) (v : ℤ)
    → Fits to.is_signed to.digits
    → Fits from.is_signed from.digits
    → Holds from v
    → (in_range to from v ≡ true) ↔ Holds to v
in_range_iff to from v = in_range_cases to.is_signed from.is_signed to.digits from.digits v

static_cast_cases :
    (s : Bool) (d : ℕ) (v : ℤ) → Holds (int_type s d) v → static_cast (int_type s d) v ≡ v
unfolding static_cast
static_cast_cases true d v h = from_residue-emod v (2 ^ d) h.0 h.1 (pow-pos d)
static_cast_cases false d v h = emod_self v (2 ^ d) h.0 h.1 (pow-pos d)

static_cast_self : (t : IntType) (v : ℤ) → Holds t v → static_cast t v ≡ v
static_cast_self t v h = static_cast_cases t.is_signed t.digits v h

-- `throwing_cast` returns the very value where the target type holds it, and throws the range error
-- where it does not, for types of at most 64 bits and a value of the source type.
pub throwing_cast_total :
    (to from : IntType) (v : ℤ)
    → Fits to.is_signed to.digits
    → Fits from.is_signed from.digits
    → Holds from v
    → (Holds to v → throwing_cast to from v ≡ ok v)
      × (¬ Holds to v → throwing_cast to from v ≡ range_error)
unfolding throwing_cast
throwing_cast_total to from v ht hf h = (
  λ k. rw ((in_range_iff to from v ht hf h).1 k, static_cast_self to v k),
  λ k. elim (Bool-cases (in_range to from v)) [
    | inl e ↦ absurd (k ((in_range_iff to from v ht hf h).0 e))
    | inr e ↦ rw e
  ],
)

-- A value that passes the assertion of `asserting_cast` is kept, and one that the target type holds
-- passes, for types of at most 64 bits and a value of the source type.
pub asserting_cast_iff :
    (to from : IntType) (v w : ℤ)
    → Fits to.is_signed to.digits
    → Fits from.is_signed from.digits
    → Holds from v
    → (asserting_cast to from v ≡ some w) ↔ (Holds to v × (w ≡ v))
unfolding asserting_cast
asserting_cast_iff to from v w ht hf h = elim (Bool-cases (in_range to from v)) [
  | inl e ↦
      let k = (in_range_iff to from v ht hf h).0 e in
      rw (e, static_cast_self to v k) (λ q. (k, cc), λ q. cc (q.1))
  | inr e ↦ rw e (λ q. absurd (cc), λ q. absurd (differ ((in_range_iff to from v ht hf h).1 q.0) e))
]
  where
    differ : {b : Bool} → b ≡ true → b ≡ false → ⊥
    differ p q = cc
