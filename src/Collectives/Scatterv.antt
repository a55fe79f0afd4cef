-- ===== src/Collectives/Scatterv.antt =====
-- collectives/scatter.hpp: `scatterv`, which gives each rank a block of its own size of the root's buffer.
-- `MPI_Scatterv` and what `scatter` calls are parameters.
pub mod Accepted
pub mod Delivery
use mping.Prelude.{
  ℕ, zero, suc, ◌+◌, ◌<◌, ◌≤◌, ◌≡◌, Bool, true, false, ◌&&◌, ◌||◌, not, List, [], ◌∷◌, length, leb,
  ltb, ◌==◌, take, get_or, exclusive_scan, Option, none, some, ◌>>=◌, ◌>>◌, kassert, if◌then◌else◌,
}
use mping.Blocks.{slice, write_at}
use mping.Collectives.{
  BufferResizePolicy, no_resize, resize_if_requested, Param, given, out, has_to_be_computed,
  all_below, same_on_all,
}
use mping.Collectives.Bcast.{MpiBcast, is_given, buffer_or_new, value_or}
use mping.Collectives.Scatter
use mping.Collectives.Scatter.{MpiScatter, scatter}

-- The send buffer is `none` where its data pointer is null, as it is where the buffer is ignored.
pub record Args {ℓ} (A : Type ℓ) : Type ℓ where
  pub send_buf : Option (List A)
  pub send_counts : Param
  pub send_displs : Param
  pub recv_count : Option ℕ
  pub recv_buf : List A
  pub recv_policy : BufferResizePolicy
  pub recv_type_given : Bool
  pub root : ℕ

-- What a rank hands to `MPI_Scatterv`; only the root's send parameters are read.
pub record Call {ℓ} (A : Type ℓ) : Type ℓ where
  pub send_buf : List A
  pub send_counts : List ℕ
  pub send_displs : List ℕ
  pub recv_buf : List A
  pub recv_count : ℕ

abbrev pub MpiScatterv {ℓ} : Type ℓ → Type ℓ
MpiScatterv A = ℕ → ℕ → (ℕ → Call A) → Option (ℕ → List A)

-- What MPI documents: if each rank receives as many elements as the root sends to it, and the blocks lie
-- inside the root's send buffer, then each block is written to the start of its receive buffer.
abbrev pub Scatters {ℓ} : {A : Type ℓ} → MpiScatterv A → Type ℓ
Scatters {A} mpi =
    (p root : ℕ) (calls : ℕ → Call A)
    → root < p
    → ((r : ℕ)
        → r < p
        → ((calls r).recv_count ≡ get_or (calls root).send_counts r 0)
          × ((calls r).recv_count ≤ length (calls r).recv_buf)
          × (get_or (calls root).send_displs r 0 + get_or (calls root).send_counts r 0
              ≤ length (calls root).send_buf))
    → (received : ℕ → List A) × (mpi p root calls ≡ some received)
      × ((r : ℕ)
          → r < p
          → received r
            ≡ write_at 0
                (slice (calls root).send_buf (get_or (calls root).send_displs r 0)
                  (get_or (calls root).send_counts r 0))
                (calls r).recv_buf)

pub record Outcome {ℓ} (A : Type ℓ) : Type ℓ where
  pub recv_buf : List A
  pub recv_count : ℕ

-- The list of a parameter as the caller left it.
abbrev pub contents : Param → List ℕ
contents (given xs) = xs
contents (out policy xs) = xs

module _ {ℓ} {A : Type ℓ} (blank : A) (p : ℕ) where
  abbrev pub at_root : ℕ → Args A → Bool
  at_root r a = r == a.root

  -- The displacements; only the root computes them.
  abbrev pub send_displs_of : Bool → Param → List ℕ → List ℕ
  send_displs_of rooted (given xs) counts = xs
  send_displs_of rooted (out policy xs) counts =
      if rooted
      then write_at 0 (exclusive_scan 0 (take p counts)) (resize_if_requested policy 0 p xs)
      else xs

  abbrev pub displs_room : Param → ℕ
  displs_room (given xs) = length xs
  displs_room (out policy xs) = length (resize_if_requested policy 0 p xs)

  -- The assertions of rank `r` before the counts are exchanged.
  pub send_accepted : ℕ → Args A → Bool
  send_accepted r a =
      ltb a.root p
      && (not (at_root r a)
          || (is_given a.send_buf
              && (not (has_to_be_computed a.send_counts)
                  && (leb p (length (contents a.send_counts))
                      && leb p (displs_room a.send_displs)))))

  -- The call by which the ranks learn how much they receive.
  pub count_args : Args A → Scatter.Args ℕ
  count_args a = record {
    send_buf = some (contents a.send_counts);
    send_count = none;
    recv_count = some 1;
    recv_buf = 0 ∷ [];
    recv_policy = no_resize;
    recv_type_given = false;
    root = a.root;
  }

  pub exchange_counts :
      MpiBcast Bool
      → MpiBcast (Option ℕ)
      → MpiBcast ℕ
      → MpiScatter ℕ
      → (ℕ → Args A)
      → Option (ℕ → ℕ)
  exchange_counts mpi_flag mpi_count mpi_bcast mpi_scatter args =
      if is_given (args 0).recv_count then some (λ r. value_or (args r).recv_count 0) else (do
        received ← scatter 0 p mpi_flag mpi_count mpi_bcast mpi_scatter (λ r. count_args (args r))
        some (λ r. get_or (received r) 0 0))

  pub recv_buf_of : Args A → ℕ → List A
  recv_buf_of a count = resize_if_requested a.recv_policy blank count a.recv_buf

  pub buffer_suffices : Args A → ℕ → Bool
  buffer_suffices a count = a.recv_type_given || leb count (length (recv_buf_of a count))

  pub call_of : ℕ → Args A → ℕ → Call A
  call_of r a count = record {
    send_buf = buffer_or_new a.send_buf;
    send_counts = contents a.send_counts;
    send_displs = send_displs_of (at_root r a) a.send_displs (contents a.send_counts);
    recv_buf = recv_buf_of a count;
    recv_count = count;
  }

  pub scatterv :
      MpiBcast Bool
      → MpiBcast (Option ℕ)
      → MpiBcast ℕ
      → MpiScatter ℕ
      → MpiScatterv A
      → (ℕ → Args A)
      → Option (ℕ → Outcome A)
  scatterv mpi_flag mpi_count mpi_bcast mpi_scatter mpi args = do
    kassert (all_below p (λ r. (args r).root == (args 0).root))
    kassert (all_below p (λ r. send_accepted r (args r)))
    kassert (same_on_all p (λ r. is_given (args r).recv_count))
    counts ← exchange_counts mpi_flag mpi_count mpi_bcast mpi_scatter args
    kassert (all_below p (λ r. buffer_suffices (args r) (counts r)))
    received ← mpi p (args 0).root (λ r. call_of r (args r) (counts r))
    some (λ r. record { recv_buf = received r; recv_count = counts r })
