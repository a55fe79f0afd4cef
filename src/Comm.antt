-- ===== src/Comm.antt =====
-- include/__mping/communicator.hpp: the state that a communicator object keeps, its root, its tag and
-- its rank arithmetic. Sizes and ranks are numbers; `int` values are integers whose arithmetic is
-- undefined behaviour outside 32 bits. A failed assertion is `none`.
pub mod Ranks
pub mod Ownership
mod Tests
use mping.Prelude.{
  ℕ, ◌+◌, ◌≤◌, ◌<◌, Bool, true, false, ◌&&◌, Option, none, some, ltb, ◌==◌, ◌>>=◌, ◌>>◌, kassert,
}
use mping.Prelude.Int.{ℤ, pos, negsuc, pos_part, ◌+ℤ◌, leb_ℤ, ltb_ℤ, rem}
use mping.Casts.{int32, size64, limit_min, limit_max, asserting_cast}

-- An `MPI_Comm` handle.
pub data Handle : Type 0 where
  null world : Handle
  handle : ℕ → Handle

pub record Comm : Type 0 where
  pub rank : ℕ
  pub size : ℕ
  pub comm : Handle
  pub root : ℕ
  pub default_tag : ℤ
  pub owns_mpi_comm : Bool

-- A sum of two `int` values.
pub add_int : ℤ → ℤ → Option ℤ
add_int a b = do
  kassert (leb_ℤ (limit_min int32) (a +ℤ b) && leb_ℤ (a +ℤ b) (limit_max int32))
  some (a +ℤ b)

pub to_size : ℤ → Option ℕ
to_size v = do v' ← asserting_cast size64 int32 v; some (pos_part v')

pub rank_signed : Comm → Option ℤ
rank_signed c = asserting_cast int32 size64 (pos c.rank)

pub size_signed : Comm → Option ℤ
size_signed c = asserting_cast int32 size64 (pos c.size)

pub root_signed : Comm → Option ℤ
root_signed c = asserting_cast int32 size64 (pos c.root)

-- `is_valid_rank(int)`; `&&` reads the size only behind a rank that is not negative.
pub is_valid_rank_signed : Comm → ℤ → Option Bool
is_valid_rank_signed c rank = elim (leb_ℤ (pos 0) rank) [
  | true ↦ size_signed c >>= λ size. some (ltb_ℤ rank size)
  | false ↦ some false
]

pub is_valid_rank : Comm → ℕ → Bool
is_valid_rank c rank = ltb rank c.size

-- `root(int)` and `root(size_t)`.
pub set_root_signed : Comm → ℤ → Option Comm
set_root_signed c new_root = do
  valid ← is_valid_rank_signed c new_root
  kassert valid
  r ← to_size new_root
  some (record c { root = r })

pub set_root : Comm → ℕ → Option Comm
set_root c new_root = do kassert (is_valid_rank c new_root); some (record c { root = new_root })

-- `is_root(int)`, `is_root(size_t)` and `is_root()`.
pub is_root_signed : Comm → ℤ → Option Bool
is_root_signed c root = do r ← to_size root; some (c.rank == r)

pub is_root_of : Comm → ℕ → Bool
is_root_of c root = c.rank == root

pub is_root : Comm → Bool
is_root c = is_root_of c c.root

-- The constructor over a raw handle: MPI's rank and size in it are arguments.
pub construct : Handle → ℕ → ℕ → ℤ → Bool → Option Comm
construct null rank size root take_ownership = none
construct world rank size root true = none
construct h rank size root take_ownership =
    set_root_signed
      (record {
        rank = rank;
        size = size;
        comm = h;
        root = 0;
        default_tag = pos 0;
        owns_mpi_comm = take_ownership;
      })
      root

-- `is_valid_tag` of the environment, with MPI's upper bound.
pub set_default_tag : ℤ → Comm → ℤ → Option Comm
set_default_tag tag_ub c tag = do
  kassert (leb_ℤ (pos 0) tag && leb_ℤ tag tag_ub)
  some (record c { default_tag = tag })

pub rank_shifted_checked : Comm → ℤ → Option ℕ
rank_shifted_checked c distance = do
  rank ← rank_signed c
  result ← add_int rank distance
  valid ← is_valid_rank_signed c result
  kassert valid
  to_size result

-- `%` by zero is undefined.
pub rem_int : ℤ → ℤ → Option ℤ
rem_int a b = do kassert (ltb_ℤ (pos 0) b); some (rem a (pos_part b))

pub rank_shifted_cyclic : Comm → ℤ → Option ℕ
rank_shifted_cyclic c distance = do
  size ← size_signed c
  capped_distance ← rem_int distance size
  rank ← rank_signed c
  moved ← add_int rank capped_distance
  lifted ← add_int moved size
  result ← rem_int lifted size
  to_size result
