-- ===== src/Collectives/Gatherv.antt =====
-- collectives/gather.hpp: `gatherv`, which collects blocks of different sizes at the root. `MPI_Gather`
-- and `MPI_Gatherv` are parameters.
pub mod Delivery
use mping.Prelude.{
  ℕ, zero, suc, ◌+◌, ◌*◌, ◌<◌, ◌≤◌, ◌≡◌, ◌≢◌, Bool, true, false, ◌&&◌, ◌||◌, not, List, [], ◌∷◌,
  length, leb, ltb, ◌==◌, take, get_or, exclusive_scan, Option, none, some, ◌>>=◌, ◌>>◌, kassert,
  if◌then◌else◌,
}
use mping.Blocks.{write_at, write_all, tabulate_from}
use mping.Collectives.{
  BufferResizePolicy, no_resize, resize_if_requested, Param, given, out, has_to_be_computed,
  all_below, same_on_all, compute_required_recv_buf_size,
}
use mping.Collectives.Gather
use mping.Collectives.Gather.{MpiGather, option_or}

-- The parameter for the counts, which a rank other than the root may ignore.
pub data Counts : Type 0 where
  counts_given : List ℕ → Counts
  counts_out : BufferResizePolicy → List ℕ → Counts
  counts_ignored : Counts

pub record Args {ℓ} (A : Type ℓ) : Type ℓ where
  pub send_buf : List A
  pub send_count : Option ℕ
  pub recv_counts : Counts
  pub recv_displs : Param
  pub recv_buf : List A
  pub recv_policy : BufferResizePolicy
  pub recv_type_given : Bool
  pub root : ℕ

-- What a rank hands to `MPI_Gatherv`; only the root's receive parameters are read.
pub record Call {ℓ} (A : Type ℓ) : Type ℓ where
  pub send_buf : List A
  pub send_count : ℕ
  pub recv_buf : List A
  pub recv_counts : List ℕ
  pub recv_displs : List ℕ

abbrev pub MpiGatherv {ℓ} : Type ℓ → Type ℓ
MpiGatherv A = ℕ → ℕ → (ℕ → Call A) → Option (ℕ → List A)

-- What MPI documents: if the root's counts are what the ranks send, and the blocks lie inside the
-- root's receive buffer one behind the other, then each block is written at its displacement, and the receive buffers of the
-- others are not touched.
abbrev pub Gathers {ℓ} : {A : Type ℓ} → MpiGatherv A → Type ℓ
Gathers {A} mpi =
    (p root : ℕ) (calls : ℕ → Call A)
    → root < p
    → ((r : ℕ)
        → r < p
        → ((calls r).send_count ≡ get_or (calls root).recv_counts r 0)
          × ((calls r).send_count ≤ length (calls r).send_buf)
          × (get_or (calls root).recv_displs r 0 + get_or (calls root).recv_counts r 0
              ≤ length (calls root).recv_buf))
    → ((i j : ℕ)
        → i < j
        → j < p
        → get_or (calls root).recv_displs i 0 + get_or (calls root).recv_counts i 0
          ≤ get_or (calls root).recv_displs j 0)
    → (received : ℕ → List A) × (mpi p root calls ≡ some received)
      × (received root
          ≡ write_all (take p (calls root).recv_displs)
              (tabulate_from 0 p (λ j. take (calls j).send_count (calls j).send_buf))
              (calls root).recv_buf)
      × ((r : ℕ) → r ≢ root → received r ≡ (calls r).recv_buf)

pub record Outcome {ℓ} (A : Type ℓ) : Type ℓ where
  pub recv_buf : List A
  pub recv_counts : List ℕ
  pub recv_displs : List ℕ

abbrev pub is_ignored : Counts → Bool
is_ignored (counts_given xs) = false
is_ignored (counts_out policy xs) = false
is_ignored counts_ignored = true

-- `do_calculate_recv_counts`
abbrev pub calculates : Counts → Bool
calculates (counts_given xs) = false
calculates (counts_out policy xs) = true
calculates counts_ignored = true

-- The buffer for the counts; only the root's is resized.
abbrev pub counts_buffer : ℕ → Bool → Counts → List ℕ
counts_buffer p at_root (counts_given xs) = xs
counts_buffer p at_root (counts_out policy xs) =
    if at_root then resize_if_requested policy 0 p xs else xs
counts_buffer p at_root counts_ignored = []

-- The displacements; only the root computes them.
abbrev pub displs_of : ℕ → Bool → Param → List ℕ → List ℕ
displs_of p at_root (given xs) counts = xs
displs_of p at_root (out policy xs) counts =
    if at_root
    then write_at 0 (exclusive_scan 0 (take p counts)) (resize_if_requested policy 0 p xs)
    else xs

-- The room for displacements that the root asserts.
abbrev pub displs_room : ℕ → Param → ℕ
displs_room p (given xs) = length xs
displs_room p (out policy xs) = length (resize_if_requested policy 0 p xs)

module _ {ℓ} {A : Type ℓ} (blank : A) (p : ℕ) where
  pub send_count_of : Args A → ℕ
  send_count_of a = option_or a.send_count (length a.send_buf)

  pub count_args : ℕ → Args A → Gather.Args ℕ
  count_args r a = record {
    send_buf = send_count_of a ∷ [];
    send_count = some 1;
    recv_count = some 1;
    recv_buf = counts_buffer p (r == a.root) a.recv_counts;
    recv_policy = no_resize;
    recv_type_given = false;
    root = a.root;
  }

  pub exchange_counts : MpiGather ℕ → (ℕ → Args A) → Option (ℕ → List ℕ)
  exchange_counts mpi args =
      if calculates (args 0).recv_counts
      then Gather.gather 0 p mpi (λ r. count_args r (args r))
      else some (λ r. counts_buffer p (r == (args r).root) (args r).recv_counts)

  pub required_recv_buf_size : Args A → List ℕ → ℕ
  required_recv_buf_size a counts =
      compute_required_recv_buf_size (has_to_be_computed a.recv_displs) counts
        (displs_of p true a.recv_displs counts) p

  pub recv_buf_of : ℕ → Args A → List ℕ → List A
  recv_buf_of r a counts =
      if r == a.root
      then resize_if_requested a.recv_policy blank (required_recv_buf_size a counts) a.recv_buf
      else a.recv_buf

  -- The assertions on the root, which is rank `r`, that come before any communication.
  pub root_accepted : ℕ → Args A → Bool
  root_accepted r a = (if r == a.root then not (is_ignored a.recv_counts) else true) && ltb a.root p

  pub buffers_suffice : ℕ → Args A → List ℕ → Bool
  buffers_suffice r a counts =
      if r == a.root
      then leb p (length counts)
        && leb p (displs_room p a.recv_displs)
        && (a.recv_type_given
            || leb (required_recv_buf_size a counts) (length (recv_buf_of r a counts)))
      else true

  pub call_of : ℕ → Args A → List ℕ → Call A
  call_of r a counts = record {
    send_buf = a.send_buf;
    send_count = send_count_of a;
    recv_buf = recv_buf_of r a counts;
    recv_counts = counts;
    recv_displs = displs_of p (r == a.root) a.recv_displs counts;
  }

  pub outcome_of : ℕ → Args A → List ℕ → List A → Outcome A
  outcome_of r a counts received = record {
    recv_buf = received;
    recv_counts = counts;
    recv_displs = displs_of p (r == a.root) a.recv_displs counts;
  }

  pub gatherv : MpiGather ℕ → MpiGatherv A → (ℕ → Args A) → Option (ℕ → Outcome A)
  gatherv mpi mpi_v args = do
    kassert (all_below p (λ r. root_accepted r (args r)))
    kassert (all_below p (λ r. (args r).root == (args 0).root))
    kassert (same_on_all p (λ r. calculates (args r).recv_counts))
    counts ← exchange_counts mpi args
    kassert (all_below p (λ r. buffers_suffice r (args r) (counts r)))
    received ← mpi_v p (args 0).root (λ r. call_of r (args r) (counts r))
    some (λ r. outcome_of r (args r) (counts r) (received r))
