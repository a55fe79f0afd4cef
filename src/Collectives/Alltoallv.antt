-- ===== src/Collectives/Alltoallv.antt =====
-- collectives/alltoall.hpp: `alltoallv`, on all ranks together. MPI is a parameter: `MPI_Alltoall` for
-- the counts and `MPI_Alltoallv` for the elements.
pub mod Calls
pub mod Rank
pub mod Delivery
use mping.Prelude.{
  ℕ, zero, suc, ◌+◌, ◌-◌, ◌<◌, ◌≤◌, ◌≡◌, Bool, true, false, ◌&&◌, ◌||◌, List, [], ◌∷◌, length, take,
  get_or, exclusive_scan, ltb, leb, Option, none, some, ◌>>=◌, ◌>>◌, kassert, if◌then◌else◌,
}
use mping.Collectives.Alltoall.{MpiAlltoall}
use mping.Collectives.Alltoall
use mping.Blocks.{slice, write_all, concat, tabulate_from}
use mping.Collectives.{
  BufferResizePolicy, no_resize, resize_if_requested, Param, given, out, has_to_be_computed, sized,
  filled, compute_required_recv_buf_size, all_below, same_on_all,
}

-- What a rank passes.
pub record Args {ℓ} (A : Type ℓ) : Type ℓ where
  pub send_buf : List A
  pub send_counts : List ℕ
  pub send_displs : Param
  pub recv_counts : Param
  pub recv_displs : Param
  pub recv_buf : List A
  pub recv_policy : BufferResizePolicy
  pub send_type_given : Bool
  pub recv_type_given : Bool

-- What a rank hands to `MPI_Alltoallv`, its receive buffer as it stands before the call.
pub record Call {ℓ} (A : Type ℓ) : Type ℓ where
  pub send_buf : List A
  pub send_counts : List ℕ
  pub send_displs : List ℕ
  pub recv_buf : List A
  pub recv_counts : List ℕ
  pub recv_displs : List ℕ

-- `MPI_Alltoallv` for a communicator of the given size; `none` is an error code.
abbrev pub MpiAlltoallv {ℓ} : Type ℓ → Type ℓ
MpiAlltoallv A = ℕ → (ℕ → Call A) → Option (ℕ → List A)

pub record Outcome {ℓ} (A : Type ℓ) : Type ℓ where
  pub recv_buf : List A
  pub recv_counts : List ℕ
  pub recv_displs : List ℕ
  pub send_displs : List ℕ

abbrev pub given_counts : Param → List ℕ
given_counts (given xs) = xs
given_counts (out policy xs) = xs

module _ {ℓ} {A : Type ℓ} (blank : A) (p : ℕ) where
  -- The buffers of one rank, from its counts `counts` as they are after the exchange.
  pub send_displs_of : Args A → List ℕ
  send_displs_of a = filled p a.send_displs (exclusive_scan 0 (take p a.send_counts))

  pub recv_displs_of : Args A → List ℕ → List ℕ
  recv_displs_of a counts = filled p a.recv_displs (exclusive_scan 0 (take p counts))

  pub required_recv_buf_size : Args A → List ℕ → ℕ
  required_recv_buf_size a counts =
      compute_required_recv_buf_size (has_to_be_computed a.recv_displs) counts
        (recv_displs_of a counts) p

  pub recv_buf_of : Args A → List ℕ → List A
  recv_buf_of a counts =
      resize_if_requested a.recv_policy blank (required_recv_buf_size a counts) a.recv_buf

  -- The assertions of one rank.
  pub buffers_suffice : Args A → List ℕ → Bool
  buffers_suffice a counts =
      leb p (length a.send_counts)
      && leb p (length counts)
      && leb p (length (sized p a.send_displs))
      && (a.send_type_given
          || leb (get_or a.send_counts (p - 1) 0 + get_or (send_displs_of a) (p - 1) 0)
              (length a.send_buf))
      && leb p (length (sized p a.recv_displs))
      && (a.recv_type_given
          || leb (required_recv_buf_size a counts) (length (recv_buf_of a counts)))

  pub call_of : Args A → List ℕ → Call A
  call_of a counts = record {
    send_buf = a.send_buf;
    send_counts = a.send_counts;
    send_displs = send_displs_of a;
    recv_buf = recv_buf_of a counts;
    recv_counts = counts;
    recv_displs = recv_displs_of a counts;
  }

  pub outcome_of : Args A → List ℕ → List A → Outcome A
  outcome_of a counts received = record {
    recv_buf = received;
    recv_counts = counts;
    recv_displs = recv_displs_of a counts;
    send_displs = send_displs_of a;
  }

  -- The counts are exchanged by `alltoall` where they have to be computed, into the buffers that were
  -- made for them.
  pub count_args : Args A → Alltoall.Args ℕ
  count_args a = record {
    send_buf = a.send_counts;
    send_count = none;
    recv_count = none;
    recv_buf = sized p a.recv_counts;
    recv_policy = no_resize;
    recv_type_given = false;
  }

  pub exchange_counts : MpiAlltoall ℕ → (ℕ → Args A) → Option (ℕ → List ℕ)
  exchange_counts mpi args =
      if has_to_be_computed (args 0).recv_counts
      then Alltoall.alltoall 0 p mpi (λ j. count_args (args j))
      else some (λ j. given_counts (args j).recv_counts)

  pub alltoallv : MpiAlltoall ℕ → MpiAlltoallv A → (ℕ → Args A) → Option (ℕ → Outcome A)
  alltoallv mpi mpi_v args = do
    kassert (same_on_all p (λ r. has_to_be_computed (args r).recv_counts))
    kassert (same_on_all p (λ r. has_to_be_computed (args r).send_displs))
    kassert (same_on_all p (λ r. has_to_be_computed (args r).recv_displs))
    counts ← exchange_counts mpi args
    kassert (all_below p (λ r. buffers_suffice (args r) (counts r)))
    received ← mpi_v p (λ r. call_of (args r) (counts r))
    some (λ r. outcome_of (args r) (counts r) (received r))
