-- ===== src/Collectives/Allgatherv.antt =====
-- collectives/allgather.hpp: `allgatherv`, by which every rank gets blocks of different sizes of all.
-- `MPI_Allgather` and `MPI_Allgatherv` are parameters.
pub mod Delivery
use mping.Prelude.{
  ℕ, zero, suc, ◌+◌, ◌<◌, ◌≤◌, ◌≡◌, Bool, true, false, ◌&&◌, ◌||◌, List, [], ◌∷◌, length, leb, take,
  get_or, exclusive_scan, Option, none, some, ◌>>=◌, ◌>>◌, kassert, if◌then◌else◌,
}
use mping.Blocks.{write_all, tabulate_from}
use mping.Collectives.{
  BufferResizePolicy, no_resize, resize_if_requested, Param, given, out, has_to_be_computed, sized,
  filled, compute_required_recv_buf_size, all_below, same_on_all,
}
use mping.Collectives.Alltoallv.{given_counts}
use mping.Collectives.Bcast.{value_or}
use mping.Collectives.Allgather
use mping.Collectives.Allgather.{MpiAllgather}

pub record Args {ℓ} (A : Type ℓ) : Type ℓ where
  pub send_buf : List A
  pub send_count : Option ℕ
  pub recv_counts : Param
  pub recv_displs : Param
  pub recv_buf : List A
  pub recv_policy : BufferResizePolicy
  pub recv_type_given : Bool

-- What a rank hands to `MPI_Allgatherv`.
pub record Call {ℓ} (A : Type ℓ) : Type ℓ where
  pub send_buf : List A
  pub send_count : ℕ
  pub recv_buf : List A
  pub recv_counts : List ℕ
  pub recv_displs : List ℕ

abbrev pub MpiAllgatherv {ℓ} : Type ℓ → Type ℓ
MpiAllgatherv A = ℕ → (ℕ → Call A) → Option (ℕ → List A)

-- Calls that MPI accepts: every rank knows what the others send, and the blocks lie in its receive
-- buffer one behind the other.
pub record IsLegal {ℓ} {A : Type ℓ} (p : ℕ) (calls : ℕ → Call A) : Type ℓ where
  pub agree : (r j : ℕ) → r < p → j < p → get_or (calls r).recv_counts j 0 ≡ (calls j).send_count
  pub sends : (r : ℕ) → r < p → (calls r).send_count ≤ length (calls r).send_buf
  pub fits :
      (r j : ℕ)
      → r < p
      → j < p
      → get_or (calls r).recv_displs j 0 + get_or (calls r).recv_counts j 0
        ≤ length (calls r).recv_buf
  pub apart :
      (r i j : ℕ)
      → r < p
      → i < j
      → j < p
      → get_or (calls r).recv_displs i 0 + get_or (calls r).recv_counts i 0
        ≤ get_or (calls r).recv_displs j 0

-- What MPI documents for such calls: each block is written at its displacement.
abbrev pub Gathers {ℓ} : {A : Type ℓ} → MpiAllgatherv A → Type ℓ
Gathers {A} mpi =
    (p : ℕ) (calls : ℕ → Call A)
    → IsLegal p calls
    → (received : ℕ → List A) × (mpi p calls ≡ some received)
      × ((r : ℕ)
          → r < p
          → received r
            ≡ write_all (calls r).recv_displs
                (tabulate_from 0 p (λ j. take (calls j).send_count (calls j).send_buf))
                (calls r).recv_buf)

pub record Outcome {ℓ} (A : Type ℓ) : Type ℓ where
  pub recv_buf : List A
  pub recv_counts : List ℕ
  pub recv_displs : List ℕ

module _ {ℓ} {A : Type ℓ} (blank : A) (p : ℕ) where
  pub send_count_of : Args A → ℕ
  send_count_of a = value_or a.send_count (length a.send_buf)

  -- The call by which the ranks learn the counts, into the buffers that were made for them.
  pub count_args : Args A → Allgather.Args ℕ
  count_args a = record {
    send_buf = send_count_of a ∷ [];
    send_count = none;
    recv_count = none;
    recv_buf = sized p a.recv_counts;
    recv_policy = no_resize;
    send_type_given = false;
    recv_type_given = false;
  }

  pub exchange_counts : MpiAllgather ℕ → (ℕ → Args A) → Option (ℕ → List ℕ)
  exchange_counts mpi args =
      if has_to_be_computed (args 0).recv_counts
      then Allgather.allgather 0 p mpi (λ r. count_args (args r))
      else some (λ r. given_counts (args r).recv_counts)

  pub recv_displs_of : Args A → List ℕ → List ℕ
  recv_displs_of a counts = filled p a.recv_displs (exclusive_scan 0 (take p counts))

  pub required_recv_buf_size : Args A → List ℕ → ℕ
  required_recv_buf_size a counts =
      compute_required_recv_buf_size (has_to_be_computed a.recv_displs) counts
        (recv_displs_of a counts) p

  pub recv_buf_of : Args A → List ℕ → List A
  recv_buf_of a counts =
      resize_if_requested a.recv_policy blank (required_recv_buf_size a counts) a.recv_buf

  pub buffers_suffice : Args A → List ℕ → Bool
  buffers_suffice a counts =
      leb p (length (sized p a.recv_displs))
      && (a.recv_type_given
          || leb (required_recv_buf_size a counts) (length (recv_buf_of a counts)))

  pub call_of : Args A → List ℕ → Call A
  call_of a counts = record {
    send_buf = a.send_buf;
    send_count = send_count_of a;
    recv_buf = recv_buf_of a counts;
    recv_counts = counts;
    recv_displs = recv_displs_of a counts;
  }

  pub outcome_of : Args A → List ℕ → List A → Outcome A
  outcome_of a counts received = record {
    recv_buf = received;
    recv_counts = counts;
    recv_displs = recv_displs_of a counts;
  }

  pub allgatherv : MpiAllgather ℕ → MpiAllgatherv A → (ℕ → Args A) → Option (ℕ → Outcome A)
  allgatherv mpi mpi_v args = do
    kassert (same_on_all p (λ r. has_to_be_computed (args r).recv_counts))
    kassert (all_below p (λ r. leb p (length (sized p (args r).recv_counts))))
    counts ← exchange_counts mpi args
    kassert (same_on_all p (λ r. has_to_be_computed (args r).recv_displs))
    kassert (all_below p (λ r. buffers_suffice (args r) (counts r)))
    received ← mpi_v p (λ r. call_of (args r) (counts r))
    some (λ r. outcome_of (args r) (counts r) (received r))
