-- ===== src/Comm/Ownership.antt =====
-- The special members of `Communicator` and the MPI handles that they duplicate, hand over and free.
-- A program is a sequence of calls on the communicator objects that are alive; MPI numbers the handles
-- that it makes.
pub mod Conserved
use mping.Prelude.{
  ℕ, zero, suc, ◌+◌, Bool, true, false, List, [], ◌∷◌, Option, none, some, get_elem?, set,
  if◌then◌else◌,
}
use mping.Comm.{Comm, Handle, null, world, handle}

-- The copy constructor; the argument is the handle that `MPI_Comm_dup` made.
pub copy_construct : Comm → Handle → Comm
copy_construct other dup = record other { comm = dup; owns_mpi_comm = true }

-- The move constructor: the new object, and what is left of the old one.
pub move_construct : Comm → Comm × Comm
move_construct other = (other, record other { comm = null; owns_mpi_comm = false })

-- The handle that the destructor gives to `MPI_Comm_free`, if any.
pub destruct : Comm → Option Handle
destruct c = if c.owns_mpi_comm then some c.comm else none

pub swap : Comm → Comm → Comm × Comm
swap a b = (b, a)

-- Move assignment: `this` and `other` after the call.
pub move_assign : Comm → Comm → Comm × Comm
unfolding swap
move_assign this other = swap this other

-- Copy assignment: `this` after the call, and the handle that the temporary's destructor frees.
pub copy_assign : Comm → Comm → Handle → Comm × Option Handle
unfolding swap copy_construct destruct
copy_assign this other dup =
    let (this', tmp) = swap this (copy_construct other dup) in (this', destruct tmp)

pub disown : Comm → Handle × Comm
disown c = (c.comm, record c { owns_mpi_comm = false })

-- The live objects, the number of handles that MPI has made, the handles freed, and those whose
-- ownership went to the caller of `disown_mpi_communicator`.
pub record Program : Type 0 where
  pub objects : List Comm
  pub next : ℕ
  pub freed : List Handle
  pub handed_out : List Handle

pub data Call : Type 0 where
  -- an object that takes ownership of a new handle, as `split` and `create_subcommunicators` make it
  create : Comm → Call
  -- an object over a handle that it does not own
  wrap : Comm → Call
  copies moves destroys disowns : ℕ → Call
  move_assigns copy_assigns : ℕ → ℕ → Call

abbrev push_handle : Option Handle → List Handle → List Handle
push_handle none hs = hs
push_handle (some h) hs = h ∷ hs

abbrev pub remove_at {ℓ} : {A : Type ℓ} → List A → ℕ → List A
remove_at [] i = []
remove_at (x ∷ xs) zero = xs
remove_at (x ∷ xs) (suc i) = x ∷ remove_at xs i

-- One call; an index that names no object leaves the program as it is.
pub step : Program → Call → Program
step p (create c) = record p {
  objects = record c { comm = handle p.next; owns_mpi_comm = true } ∷ p.objects;
  next = suc p.next;
}
step p (wrap c) = record p { objects = record c { owns_mpi_comm = false } ∷ p.objects }
step p (copies i) = elim (get_elem? p.objects i) [
  | none ↦ p
  | some c ↦ record p { objects = copy_construct c (handle p.next) ∷ p.objects; next = suc p.next }
]
step p (moves i) = elim (get_elem? p.objects i) [
  | none ↦ p
  | some c ↦ record p { objects = (move_construct c).0 ∷ set p.objects i (move_construct c).1 }
]
step p (destroys i) = elim (get_elem? p.objects i) [
  | none ↦ p
  | some c ↦ record p { objects = remove_at p.objects i; freed = push_handle (destruct c) p.freed }
]
step p (disowns i) = elim (get_elem? p.objects i) [
  | none ↦ p
  | some c ↦ record p {
    objects = set p.objects i (disown c).1;
    handed_out = if c.owns_mpi_comm then (disown c).0 ∷ p.handed_out else p.handed_out;
  }
]
step p (move_assigns i j) = elim (get_elem? p.objects i) [
  | none ↦ p
  | some a ↦ elim (get_elem? p.objects j) [
    | none ↦ p
    | some b ↦ record p {
      objects = set (set p.objects i (move_assign a b).0) j (move_assign a b).1;
    }
  ]
]
step p (copy_assigns i j) = elim (get_elem? p.objects i) [
  | none ↦ p
  | some a ↦ elim (get_elem? p.objects j) [
    | none ↦ p
    | some b ↦ record p {
      objects = set p.objects i (copy_assign a b (handle p.next)).0;
      next = suc p.next;
      freed = push_handle (copy_assign a b (handle p.next)).1 p.freed;
    }
  ]
]

pub run : Program → List Call → Program
run p [] = p
run p (c ∷ cs) = run (step p c) cs

pub start : Program
start = record { objects = []; next = 0; freed = []; handed_out = [] }
