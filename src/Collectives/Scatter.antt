-- ===== src/Collectives/Scatter.antt =====
-- collectives/scatter.hpp: `scatter`, which gives each rank a block of one size of the root's buffer.
-- `MPI_Scatter` is a parameter.
pub mod Deduced
pub mod Delivery
use mping.Prelude.{
  ℕ, zero, suc, ◌+◌, ◌*◌, ◌/◌, ◌%◌, ◌<◌, ◌≤◌, ◌≡◌, Bool, true, false, ◌&&◌, ◌||◌, not, List, [],
  ◌∷◌, length, leb, ltb, ◌==◌, get_or, Option, none, some, ◌>>=◌, ◌>>◌, kassert, if◌then◌else◌,
}
use mping.Blocks.{slice, write_at}
use mping.Collectives.{BufferResizePolicy, no_resize, resize_if_requested, all_below, same_on_all}
use mping.Collectives.Bcast.{MpiBcast, is_given, buffer_or_new, value_or, SingleArgs, bcast_single}

-- The send buffer is `none` where its data pointer is null, as it is where the buffer is ignored.
pub record Args {ℓ} (A : Type ℓ) : Type ℓ where
  pub send_buf : Option (List A)
  pub send_count : Option ℕ
  pub recv_count : Option ℕ
  pub recv_buf : List A
  pub recv_policy : BufferResizePolicy
  pub recv_type_given : Bool
  pub root : ℕ

-- What a rank hands to `MPI_Scatter`; only the root's send parameters are read.
pub record Call {ℓ} (A : Type ℓ) : Type ℓ where
  pub send_buf : List A
  pub send_count : ℕ
  pub recv_buf : List A
  pub recv_count : ℕ

abbrev pub MpiScatter {ℓ} : Type ℓ → Type ℓ
MpiScatter A = ℕ → ℕ → (ℕ → Call A) → Option (ℕ → List A)

-- What MPI documents: with one count on all ranks, block `r` of the root's send buffer is written to the
-- start of the receive buffer of rank `r`.
abbrev pub Scatters {ℓ} : {A : Type ℓ} → MpiScatter A → Type ℓ
Scatters {A} mpi =
    (p root n : ℕ) (calls : ℕ → Call A)
    → root < p
    → (calls root).send_count ≡ n
    → n * p ≤ length (calls root).send_buf
    → ((r : ℕ) → r < p → ((calls r).recv_count ≡ n) × (n ≤ length (calls r).recv_buf))
    → (received : ℕ → List A) × (mpi p root calls ≡ some received)
      × ((r : ℕ)
          → r < p
          → received r ≡ write_at 0 (slice (calls root).send_buf (r * n) n) (calls r).recv_buf)

module _ {ℓ} {A : Type ℓ} (blank : A) (p : ℕ) where
  abbrev pub at_root : ℕ → Args A → Bool
  at_root r a = r == a.root

  -- Off the root a count that is not given stays zero.
  unfoldable pub send_count_of : ℕ → Args A → ℕ
  send_count_of r a =
      value_or a.send_count (if at_root r a then length (buffer_or_new a.send_buf) / p else 0)

  -- The assertions of rank `r` before the counts are exchanged.
  unfoldable pub send_accepted : ℕ → Args A → Bool
  send_accepted r a =
      ltb a.root p
      && (not (at_root r a)
          || (is_given a.send_buf
              && (is_given a.send_count || (length (buffer_or_new a.send_buf) % p == 0))))

  -- What a rank passes to the broadcast of the root's send count.
  pub count_args : ℕ → Args A → SingleArgs ℕ
  count_args r a = record { send_recv_buf = some (send_count_of r a); root = a.root }

  unfoldable pub recv_counts :
      MpiBcast Bool → MpiBcast (Option ℕ) → MpiBcast ℕ → (ℕ → Args A) → Option (ℕ → ℕ)
  recv_counts mpi_flag mpi_count mpi_bcast args =
      if is_given (args 0).recv_count
      then some (λ r. value_or (args r).recv_count 0)
      else bcast_single 0 p mpi_flag mpi_count mpi_bcast (λ r. count_args r (args r))

  unfoldable pub recv_buf_of : Args A → ℕ → List A
  recv_buf_of a count = resize_if_requested a.recv_policy blank count a.recv_buf

  pub buffer_suffices : Args A → ℕ → Bool
  buffer_suffices a count = a.recv_type_given || leb count (length (recv_buf_of a count))

  pub call_of : ℕ → Args A → ℕ → Call A
  call_of r a count = record {
    send_buf = buffer_or_new a.send_buf;
    send_count = send_count_of r a;
    recv_buf = recv_buf_of a count;
    recv_count = count;
  }

  -- The receive buffers of the ranks.
  unfoldable pub scatter :
      MpiBcast Bool
      → MpiBcast (Option ℕ)
      → MpiBcast ℕ
      → MpiScatter A
      → (ℕ → Args A)
      → Option (ℕ → List A)
  scatter mpi_flag mpi_count mpi_bcast mpi args = do
    kassert (all_below p (λ r. (args r).root == (args 0).root))
    kassert (all_below p (λ r. send_accepted r (args r)))
    kassert (same_on_all p (λ r. is_given (args r).recv_count))
    counts ← recv_counts mpi_flag mpi_count mpi_bcast args
    kassert (all_below p (λ r. buffer_suffices (args r) (counts r)))
    mpi p (args 0).root (λ r. call_of r (args r) (counts r))
