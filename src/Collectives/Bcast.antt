-- ===== src/Collectives/Bcast.antt =====
-- collectives/bcast.hpp: `bcast` and `bcast_single`, without serialization. `MPI_Bcast` is a parameter, for the count, for
-- the elements and for the sign that the root has a buffer.
pub mod Delivery
pub mod Single
use mping.Prelude.{
  ℕ, zero, suc, ◌+◌, ◌<◌, ◌≤◌, ◌≡◌, Bool, true, false, ◌&&◌, ◌||◌, not, List, [], ◌∷◌, length, leb,
  ltb, ◌==◌, take, Option, none, some, ◌>>=◌, ◌>>◌, kassert, if◌then◌else◌, get_or,
}
use mping.Blocks.{write_at}
use mping.Collectives.{
  BufferResizePolicy, no_resize, resize_to_fit, resize_if_requested, all_below, same_on_all,
}

-- What a rank passes. The library makes a buffer where none is given.
pub record Args {ℓ} (A : Type ℓ) : Type ℓ where
  pub send_recv_buf : Option (List A)
  pub is_modifiable : Bool
  pub send_recv_count : Option ℕ
  pub policy : BufferResizePolicy
  pub type_given : Bool
  pub root : ℕ

-- What a rank hands to `MPI_Bcast`.
pub record Call {ℓ} (A : Type ℓ) : Type ℓ where
  pub buffer : List A
  pub count : ℕ

abbrev pub MpiBcast {ℓ} : Type ℓ → Type ℓ
MpiBcast A = ℕ → ℕ → (ℕ → Call A) → Option (ℕ → List A)

-- What MPI documents: with one count on all ranks, that many elements of the root's buffer are written to
-- the start of each buffer.
abbrev pub Broadcasts {ℓ} : {A : Type ℓ} → MpiBcast A → Type ℓ
Broadcasts {A} mpi =
    (p root n : ℕ) (calls : ℕ → Call A)
    → root < p
    → ((r : ℕ) → r < p → ((calls r).count ≡ n) × (n ≤ length (calls r).buffer))
    → (received : ℕ → List A) × (mpi p root calls ≡ some received)
      × ((r : ℕ) → r < p → received r ≡ write_at 0 (take n (calls root).buffer) (calls r).buffer)

pub record Outcome {ℓ} (A : Type ℓ) : Type ℓ where
  pub send_recv_buf : List A
  pub send_recv_count : ℕ

-- What a rank passes to `bcast_single`.
pub record SingleArgs {ℓ} (A : Type ℓ) : Type ℓ where
  pub send_recv_buf : Option A
  pub root : ℕ

abbrev pub is_given {ℓ} : {A : Type ℓ} → Option A → Bool
is_given none = false
is_given (some a) = true

abbrev pub buffer_or_new {ℓ} : {A : Type ℓ} → Option (List A) → List A
buffer_or_new none = []
buffer_or_new (some buffer) = buffer

-- A single element as a container
abbrev pub as_buffer {ℓ} : {A : Type ℓ} → Option A → Option (List A)
as_buffer none = none
as_buffer (some a) = some (a ∷ [])

-- The count that a rank has after the broadcast of it; `none` is NO_BUF_ON_ROOT.
abbrev pub count_or : List (Option ℕ) → Option ℕ
count_or [] = none
count_or (c ∷ cs) = c

abbrev pub value_or {ℓ} : {A : Type ℓ} → Option A → A → A
value_or none d = d
value_or (some a) d = a

module _ {ℓ} {A : Type ℓ} (blank : A) (p : ℕ) where
  abbrev pub at_root : ℕ → Args A → Bool
  at_root r a = r == a.root

  -- What a rank passes to the broadcast of the count; off the root the value is not initialized.
  pub count_call : ℕ → Args A → Call (Option ℕ)
  count_call r a =
      let own =
        (if is_given a.send_recv_buf
          then some (length (buffer_or_new a.send_recv_buf))
          else none) in
      record { buffer = (if at_root r a then own else some 0) ∷ []; count = 1 }

  pub exchange_count : MpiBcast (Option ℕ) → (ℕ → Args A) → Option (ℕ → ℕ)
  exchange_count mpi_count args =
      if is_given (args 0).send_recv_count
      then kassert (all_below p (λ r. not (at_root r (args r)) || is_given (args r).send_recv_buf))
        >> some (λ r. value_or (args r).send_recv_count 0)
      else (do
        received ← mpi_count p (args 0).root (λ r. count_call r (args r))
        kassert (all_below p (λ r. is_given (count_or (received r))))
        some (λ r. value_or (count_or (received r)) 0))

  -- Only off the root the buffer is resized.
  pub buffer_of : ℕ → Args A → ℕ → List A
  buffer_of r a count =
      if at_root r a
      then buffer_or_new a.send_recv_buf
      else resize_if_requested a.policy blank count (buffer_or_new a.send_recv_buf)

  pub buffer_suffices : ℕ → Args A → ℕ → Bool
  buffer_suffices r a count =
      at_root r a || (a.type_given || leb count (length (buffer_of r a count)))

  pub bcast : MpiBcast (Option ℕ) → MpiBcast A → (ℕ → Args A) → Option (ℕ → Outcome A)
  bcast mpi_count mpi args = do
    kassert (all_below p (λ r. ltb (args r).root p))
    kassert (all_below p (λ r. (args r).root == (args 0).root))
    kassert (all_below p (λ r. at_root r (args r) || (args r).is_modifiable))
    kassert (same_on_all p (λ r. is_given (args r).send_recv_count))
    counts ← exchange_count mpi_count args
    kassert (all_below p (λ r. buffer_suffices r (args r) (counts r)))
    received ←
        mpi p (args 0).root
          (λ r. record { buffer = buffer_of r (args r) (counts r); count = counts r })
    some (λ r. record { send_recv_buf = received r; send_recv_count = counts r })

  -- The call of `bcast` with a count of one. A single element cannot be resized; without it the library
  -- makes a buffer.
  pub single_args : SingleArgs A → Args A
  single_args a = record {
    send_recv_buf = as_buffer a.send_recv_buf;
    is_modifiable = true;
    send_recv_count = some 1;
    policy = if is_given a.send_recv_buf then no_resize else resize_to_fit;
    type_given = false;
    root = a.root;
  }

  unfoldable pub bcast_single :
      MpiBcast Bool → MpiBcast (Option ℕ) → MpiBcast A → (ℕ → SingleArgs A) → Option (ℕ → A)
  bcast_single mpi_flag mpi_count mpi args = do
    flags ←
        mpi_flag p (args 0).root
          (λ r. record { buffer = is_given (args r).send_recv_buf ∷ []; count = 1 })
    kassert (all_below p (λ r. get_or (flags r) 0 false))
    sent ← bcast mpi_count mpi (λ r. single_args (args r))
    some (λ r. get_or (sent r).send_recv_buf 0 blank)
