-- ===== src/Comm/Ranks.antt =====
-- Rank arithmetic: which shifts succeed, and to which rank.
use native.Mathlib.Nat.{mod-eq_of_lt, mod-lt, div-add-mod', add-mod-mod, add-mod_right}
use mping.Prelude.{
  ℕ, zero, suc, ◌+◌, ◌-◌, ◌*◌, ◌/◌, ◌%◌, ◌^◌, ◌≤◌, ◌<◌, ◌≡◌, ◌↔◌, Bool, true, false, ◌&&◌,
  Bool-cases, inl, inr, refl, arith, Option, some, none, ap, ◌∙◌, ◌>>=◌, ◌>>◌, kassert, leb, lt→ltb,
  mod-of, if◌then◌else◌,
}
use mping.Prelude.Int.{ℤ, pos, negsuc, emod, emod-lt, rem, sub_ℕ, leb_ℤ, ltb_ℤ, ◌+ℤ◌, pos_part}
use mping.Casts.{int32, size64, asserting_cast, Holds, limit_min, limit_max}
use mping.Casts.Range.{asserting_cast_iff}
use mping.Comm.{
  Comm, Handle, null, world, handle, add_int, to_size, rank_signed, size_signed,
  is_valid_rank_signed, rem_int, rank_shifted_checked, rank_shifted_cyclic, set_root_signed,
  construct,
}

-- What MPI's answers give: the rank and the root lie in the communicator, whose size is an `int`.
pub record IsValid (c : Comm) : Type 0 where
  pub rank_in : c.rank < c.size
  pub root_in : c.root < c.size
  pub size_in : c.size < 2 ^ 31

pub size-as-int : (n : ℕ) → n < 2 ^ 31 → asserting_cast int32 size64 (pos n) ≡ some (pos n)
size-as-int n h =
    (asserting_cast_iff int32 size64 (pos n) (pos n) (omega arith) (omega arith) (omega arith)).1
      (omega arith, refl)

pub int-as-size : (n : ℕ) → n < 2 ^ 31 → to_size (pos n) ≡ some n
unfolding to_size
int-as-size n h = rw (
    (asserting_cast_iff size64 int32 (pos n) (pos n) (omega arith) (omega arith) (omega arith)).1
      (omega arith, refl))

pub add_int-some : (a b : ℤ) → Holds int32 (a +ℤ b) → add_int a b ≡ some (a +ℤ b)
unfolding add_int
add_int-some a b h = ground arith

add_int-none : (a b : ℤ) → ¬ Holds int32 (a +ℤ b) → add_int a b ≡ none
unfolding add_int
add_int-none a b h =
    elim (Bool-cases (leb_ℤ (limit_min int32) (a +ℤ b) && leb_ℤ (a +ℤ b) (limit_max int32))) [
      | inl e ↦ absurd (h (ground arith))
      | inr e ↦ rw (e)
    ]

is_valid_rank_lem :
    (c : Comm) (r : ℤ)
    → c.size < 2 ^ 31
    → is_valid_rank_signed c r ≡ some (leb_ℤ (pos 0) r && ltb_ℤ r (pos c.size))
unfolding is_valid_rank_signed size_signed
is_valid_rank_lem c r h = ground (arith, size-as-int c.size h)

-- What a checked shift to the sum `s` gives.
abbrev in_comm : Comm → ℤ → Option ℕ
in_comm c s = elim (leb_ℤ (pos 0) s && ltb_ℤ s (pos c.size)) [
  | true ↦ some (pos_part s)
  | false ↦ none
]

finish : Comm → ℤ → Option ℕ
finish c s = do valid ← is_valid_rank_signed c s; kassert valid; to_size s

finish_lem : (c : Comm) (s : ℤ) → c.size < 2 ^ 31 → finish c s ≡ in_comm c s
unfolding finish
finish_lem c (pos n) h = ground (arith, is_valid_rank_lem c (pos n) h, int-as-size n)
finish_lem c (negsuc n) h = ground (arith, is_valid_rank_lem c (negsuc n) h)

shifted : (c : Comm) (d : ℤ) → IsValid c → rank_shifted_checked c d ≡ in_comm c (pos c.rank +ℤ d)
unfolding rank_shifted_checked finish rank_signed
shifted c d v =
    rw (size-as-int c.rank (omega arith))
      (elim (Bool-cases
        (leb_ℤ (limit_min int32) (pos c.rank +ℤ d) && leb_ℤ (pos c.rank +ℤ d) (limit_max int32))) [
          | inl e ↦
              rw (add_int-some (pos c.rank) d (ground arith))
                (finish_lem c (pos c.rank +ℤ d) v.size_in)
          | inr e ↦ rw (add_int-none (pos c.rank) d (ground arith)) (ground arith)
        ])

-- In a valid communicator the checked shift returns a rank exactly where the sum of the rank and
-- the distance is that rank and is below the size; it fails otherwise.
pub rank_shifted_checked_iff :
    (c : Comm) (d : ℤ) (r : ℕ)
    → IsValid c
    → (rank_shifted_checked c d ≡ some r) ↔ ((pos c.rank +ℤ d ≡ pos r) × (r < c.size))
rank_shifted_checked_iff c d r v = rw (shifted c d v) (ground arith)

pos-add : (a b : ℕ) → pos a +ℤ pos b ≡ pos (a + b)
unfolding ◌+ℤ◌
pos-add a b = ground arith

lift-negative : (k t m : ℕ) → t ≤ m → pos k +ℤ sub_ℕ 0 t +ℤ pos m ≡ pos (k + m - t)
unfolding ◌+ℤ◌
lift-negative k t m h = ground arith

emod-below :
    (k n m : ℕ)
    → emod (pos k +ℤ negsuc n) m ≡ (if leb (suc n) k then (k - suc n) % m else m - 1 - (n - k) % m)
unfolding emod ◌+ℤ◌
emod-below k n m = ground arith

-- The sums of a cyclic shift, for a rank `k` below the size `m`.
module _ (k m : ℕ) (k_in : k < m) where
  cyclic_pos : (n : ℕ) → rem (pos k +ℤ rem (pos n) m +ℤ pos m) m ≡ pos (emod (pos k +ℤ pos n) m)
  unfolding rem emod
  cyclic_pos n =
      rw (pos-add k (n % m), pos-add (k + n % m) m, pos-add k n, rem, emod)
        (ap pos (add-mod_right (k + n % m) m ∙ add-mod-mod k n m))

  -- a distance backward, by the quotient and the remainder of the distance
  wrap_below :
      (n q t : ℕ)
      → suc n ≡ q * m + t
      → t < m
      → k < suc n
      → t ≤ k
      → (k + m - t) % m ≡ m - 1 - (n - k) % m
  wrap_below n zero t e h a b = absurd (omega arith)
  wrap_below n (suc q) t e h a b =
      rw
        (
          mod-of (k + m - t) m 1 (k - t) (omega arith) (omega arith),
          mod-of (n - k) m q (m + t - 1 - k) (omega arith) (omega arith),
        )
        (omega arith)

  wrap_above :
      (n q t : ℕ) → suc n ≡ q * m + t → t < m → k < t → (k + m - t) % m ≡ m - 1 - (n - k) % m
  wrap_above n q t e h a =
      rw
        (
          mod-eq_of_lt {n = k + m - t} {m = m} (omega arith),
          mod-of (n - k) m q (t - 1 - k) (omega arith) (omega arith),
        )
        (omega arith)

  stay : (n : ℕ) → suc n ≤ k → (k + m - suc n % m) % m ≡ (k - suc n) % m
  stay n h =
      rw
        (
          mod-eq_of_lt {n = suc n} {m = m} (omega arith),
          mod-of (k + m - suc n) m 1 (k - suc n) (omega arith) (omega arith),
          mod-eq_of_lt {n = k - suc n} {m = m} (omega arith),
        )
        refl

  cyclic_back : (n : ℕ) → (k + m - suc n % m) % m ≡ emod (pos k +ℤ negsuc n) m
  cyclic_back n = rw (emod-below k n m) (
      ground (
        arith,
        stay n,
        wrap_above n (suc n / m) (suc n % m),
        wrap_below n (suc n / m) (suc n % m),
        div-add-mod' (suc n) m,
        mod-lt (suc n) {m = m},
      ))

  cyclic_neg :
      (n : ℕ) → rem (pos k +ℤ rem (negsuc n) m +ℤ pos m) m ≡ pos (emod (pos k +ℤ negsuc n) m)
  unfolding rem
  cyclic_neg n = rw (lift-negative k (suc n % m) m (omega arith), rem) (ap pos (cyclic_back n))

  cyclic_lem : (d : ℤ) → rem (pos k +ℤ rem d m +ℤ pos m) m ≡ pos (emod (pos k +ℤ d) m)
  cyclic_lem (pos n) = cyclic_pos n
  cyclic_lem (negsuc n) = cyclic_neg n

  add-back-Holds : (t : ℕ) → t ≤ 2 ^ 31 → k < 2 ^ 31 → Holds int32 (pos k +ℤ sub_ℕ 0 t)
  unfolding ◌+ℤ◌
  add-back-Holds t h l = (ground arith, ground arith)

  -- Its sums stay within three sizes.
  cyclic_sums :
      (d : ℤ)
      → m + m + m ≤ 2 ^ 31
      → Holds int32 (pos k +ℤ rem d m) × Holds int32 (pos k +ℤ rem d m +ℤ pos m)
  unfolding rem
  cyclic_sums (pos n) h =
      rw (pos-add k (n % m), pos-add (k + n % m) m) (omega (arith, mod-lt n {m = m}))
  cyclic_sums (negsuc n) h =
      rw (lift-negative k (suc n % m) m (omega arith))
        (add-back-Holds (suc n % m) (omega arith) (omega arith), omega (arith, mod-lt n {m = m}))

-- In a valid communicator of which three sizes fit into an `int`, and for any `int` distance, the
-- cyclic shift succeeds, without an overflow, and gives the rank plus the distance modulo the size.
pub rank_shifted_cyclic_lem :
    (c : Comm) (d : ℤ)
    → IsValid c
    → c.size + c.size + c.size ≤ 2 ^ 31
    → rank_shifted_cyclic c d ≡ some (emod (pos c.rank +ℤ d) c.size)
unfolding rank_shifted_cyclic rem_int rank_signed size_signed
rank_shifted_cyclic_lem c d v h =
    let sums = cyclic_sums c.rank c.size v.rank_in d h in
    rw
      (
        size-as-int c.size v.size_in,
        size-as-int c.rank (omega arith),
        lt→ltb 0 (c.size + 0) (omega arith),
        add_int-some (pos c.rank) (rem d c.size) sums.0,
        add_int-some (pos c.rank +ℤ rem d c.size) (pos c.size) sums.1,
        cyclic_lem c.rank c.size v.rank_in d,
      )
      (int-as-size (emod (pos c.rank +ℤ d) c.size)
        (omega (arith, emod-lt (pos c.rank +ℤ d) c.size)))

-- In a valid communicator a root is accepted exactly where it is a rank of the communicator, and
-- then nothing but the root changes.
pub set_root_signed_lem :
    (c : Comm) (r : ℤ)
    → c.size < 2 ^ 31
    → set_root_signed c r ≡ (
        if leb_ℤ (pos 0) r && ltb_ℤ r (pos c.size)
        then some (record c { root = pos_part r })
        else none)
unfolding set_root_signed
set_root_signed_lem c (pos n) h = ground (arith, is_valid_rank_lem c (pos n) h, int-as-size n)
set_root_signed_lem c (negsuc n) h = ground (arith, is_valid_rank_lem c (negsuc n) h)

-- If MPI's rank is below its size, which is an `int`, and the constructor accepts a handle and an
-- `int` root, then the communicator is valid, has that root and owns the handle as the caller said.
pub construct-IsValid :
    (h : Handle) (rank size : ℕ) (root : ℤ) (own : Bool) {c : Comm}
    → rank < size
    → size < 2 ^ 31
    → Holds int32 root
    → construct h rank size root own ≡ some c
    → IsValid c × (pos c.root ≡ root) × (c.owns_mpi_comm ≡ own)
unfolding construct
construct-IsValid null rank size root own lt small hr e = absurd (cc)
construct-IsValid world rank size root true lt small hr e = absurd (cc)
construct-IsValid world rank size root false lt small hr e = ground (
  arith,
  set_root_signed_lem
      (record {
        rank = rank;
        size = size;
        comm = world;
        root = 0;
        default_tag = pos 0;
        owns_mpi_comm = false;
      })
      root,
)
construct-IsValid (handle n) rank size root own lt small hr e = ground (
  arith,
  set_root_signed_lem
      (record {
        rank = rank;
        size = size;
        comm = handle n;
        root = 0;
        default_tag = pos 0;
        owns_mpi_comm = own;
      })
      root,
)
