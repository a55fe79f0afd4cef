-- ===== src/Environment.antt =====
-- include/__mping/environment.hpp: who initializes and finalizes MPI, the registered data types and the
-- attached buffer. A state holds the calls that MPI has got, which succeed; MPI_Initialized and
-- MPI_Finalized answer whether MPI_Init and MPI_Finalize are among them. Of the two constructors and the
-- two `init` functions the ones without `argc` and `argv` are modelled; the others differ in what they
-- pass to MPI_Init only. Assertions are enabled.
pub mod Steps
pub mod Calls
mod Tests
use mping.Prelude.{
  ℕ, zero, suc, ◌+◌, ◌≤◌, Bool, true, false, ◌||◌, ◌&&◌, List, [], ◌∷◌, ◌++◌, Option, none, some,
  ◌==◌, leb, get_elem?, set, if◌then◌else◌, kassert, ◌>>=◌, ◌>>◌,
}
use mping.Prelude.Int.{ℤ, pos, leb_ℤ}

pub data InitMpiMode : Type 0 where
  no_init_finalize init_finalize init_finalize_if_necessary : InitMpiMode

-- A data type is a number; MPI_DATATYPE_NULL is `null_type`.
abbrev pub null_type : ℕ
null_type = 0

pub data MpiCall : Type 0 where
  mpi_init mpi_finalize : MpiCall
  mpi_type_commit mpi_type_free : ℕ → MpiCall
  mpi_buffer_attach : ℕ → MpiCall
  mpi_buffer_detach : MpiCall

-- An environment object: its mode, its flag `_finalize` and whether it has a buffer attached.
pub record EnvironmentObject : Type 0 where
  pub mode : InitMpiMode
  pub finalize_flag : Bool
  pub has_buffer_attached : Bool

-- The registered types are a static member, which all objects share. An object that is destroyed is
-- `none`.
pub record State : Type 0 where
  pub calls : List MpiCall
  pub registered_mpi_types : List ℕ
  pub objects : List (Option EnvironmentObject)

abbrev pub is_init : MpiCall → Bool
is_init mpi_init = true
is_init mpi_finalize = false
is_init (mpi_type_commit t) = false
is_init (mpi_type_free t) = false
is_init (mpi_buffer_attach n) = false
is_init mpi_buffer_detach = false

abbrev pub is_finalize : MpiCall → Bool
is_finalize mpi_init = false
is_finalize mpi_finalize = true
is_finalize (mpi_type_commit t) = false
is_finalize (mpi_type_free t) = false
is_finalize (mpi_buffer_attach n) = false
is_finalize mpi_buffer_detach = false

abbrev pub is_free_of : ℕ → MpiCall → Bool
is_free_of t mpi_init = false
is_free_of t mpi_finalize = false
is_free_of t (mpi_type_commit u) = false
is_free_of t (mpi_type_free u) = u == t
is_free_of t (mpi_buffer_attach n) = false
is_free_of t mpi_buffer_detach = false

abbrev pub any_of : (MpiCall → Bool) → List MpiCall → Bool
any_of f [] = false
any_of f (c ∷ calls) = f c || any_of f calls

abbrev pub initialized : State → Bool
initialized s = any_of is_init s.calls

abbrev pub finalized : State → Bool
finalized s = any_of is_finalize s.calls

abbrev pub call : MpiCall → State → State
call c s = record s { calls = s.calls ++ c ∷ [] }

pub init_unchecked : State → Option State
init_unchecked s = kassert (if initialized s then false else true) >> some (call mpi_init s)

pub init : State → State
init s = if initialized s then s else call mpi_init s

-- The loop of `free_registered_mpi_types`.
abbrev pub frees_of : List ℕ → List MpiCall
frees_of [] = []
frees_of (t ∷ types) = if t == null_type then frees_of types else mpi_type_free t ∷ frees_of types

pub free_registered_mpi_types : State → State
free_registered_mpi_types s = record s {
  calls = s.calls ++ frees_of s.registered_mpi_types;
  registered_mpi_types = [];
}

pub finalize : State → Option State
finalize s =
    kassert (if finalized s then false else true)
    >> some (call mpi_finalize (free_registered_mpi_types s))

abbrev pub add_object : InitMpiMode → Bool → State → State
add_object mode flag s = record s {
  objects =
      s.objects
      ++ some (record { mode = mode; finalize_flag = flag; has_buffer_attached = false }) ∷ [];
}

-- `Environment()`
pub construct : InitMpiMode → State → State
construct no_init_finalize s = add_object no_init_finalize false s
construct init_finalize s = add_object init_finalize false (init s)
construct init_finalize_if_necessary s =
    if initialized s
    then add_object init_finalize_if_necessary false s
    else add_object init_finalize_if_necessary true (init s)

abbrev pub finalizes : EnvironmentObject → Bool
finalizes e = finalizes_in e.mode e.finalize_flag
  where
    finalizes_in : InitMpiMode → Bool → Bool
    finalizes_in no_init_finalize flag = false
    finalizes_in init_finalize flag = true
    finalizes_in init_finalize_if_necessary flag = flag

-- `~Environment()`
pub destroy_object : EnvironmentObject → State → State
destroy_object e s =
    if finalizes e && (if finalized s then false else true)
    then call mpi_finalize (free_registered_mpi_types s)
    else s

pub destroy : ℕ → State → Option State
destroy i s = do
  slot ← get_elem? s.objects i
  e ← slot
  let t = destroy_object e s
  some (record t { objects = set t.objects i none })

pub is_valid_tag : ℤ → ℤ → Bool
is_valid_tag tag_upper_bound tag = leb_ℤ (pos 0) tag && leb_ℤ tag tag_upper_bound

pub register_mpi_type : ℕ → State → State
register_mpi_type t s = record s { registered_mpi_types = s.registered_mpi_types ++ t ∷ [] }

-- `Environment::commit`
abbrev pub commit_type : ℕ → State → State
commit_type t s = call (mpi_type_commit t) s

pub commit_and_register : ℕ → State → State
commit_and_register t s = register_mpi_type t (commit_type t s)

-- `Environment::free`
pub free_type : ℕ → State → State
free_type t s = call (mpi_type_free t) s

-- What `buffer_attach` and `buffer_detach` leave of the object `e` at index `i`: its flag is set.
abbrev pub set_attached : ℕ → EnvironmentObject → Bool → State → State
set_attached i e flag s = record s {
  objects = set s.objects i (some (record e { has_buffer_attached = flag }));
}

-- `buffer_attach` of the object at index `i`; the size of the buffer is given in bytes.
pub buffer_attach : ℕ → ℕ → State → Option State
buffer_attach i bytes s = do
  slot ← get_elem? s.objects i
  e ← slot
  kassert (if e.has_buffer_attached then false else true)
  kassert (leb bytes 2147483647)
  some (set_attached i e true (call (mpi_buffer_attach bytes) s))

-- `buffer_detach` of the object at index `i`. MPI has one buffer, whichever object attached it.
pub buffer_detach : ℕ → State → Option State
buffer_detach i s = do
  slot ← get_elem? s.objects i
  e ← slot
  kassert e.has_buffer_attached
  some (set_attached i e false (call mpi_buffer_detach s))

pub data Operation : Type 0 where
  constructs : InitMpiMode → Operation
  destroys detaches : ℕ → Operation
  inits inits_unchecked finalizes_now : Operation
  registers commits frees : ℕ → Operation
  attaches : ℕ → ℕ → Operation

pub operate : Operation → State → Option State
operate (constructs mode) s = some (construct mode s)
operate (destroys i) s = destroy i s
operate inits s = some (init s)
operate inits_unchecked s = init_unchecked s
operate finalizes_now s = finalize s
operate (detaches i) s = buffer_detach i s
operate (registers t) s = some (register_mpi_type t s)
operate (commits t) s = some (commit_and_register t s)
operate (frees t) s = some (free_type t s)
operate (attaches i bytes) s = buffer_attach i bytes s

pub run : List Operation → State → Option State
run [] s = some s
run (o ∷ os) s = do t ← operate o s; run os t

unfoldable pub start : State
start = record { calls = []; registered_mpi_types = []; objects = [] }
