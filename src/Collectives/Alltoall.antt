-- ===== src/Collectives/Alltoall.antt =====
-- collectives/alltoall.hpp: `alltoall`, which every rank calls with blocks of one size.
-- `MPI_Alltoall` is a parameter.
pub mod Delivery
use mping.Prelude.{
  ℕ, zero, suc, ◌+◌, ◌-◌, ◌*◌, ◌/◌, ◌%◌, ◌<◌, ◌≤◌, ◌≡◌, Bool, true, false, ◌&&◌, ◌||◌, List, [],
  ◌∷◌, ◌++◌, length, get_or, leb, ◌==◌, Option, none, some, ◌>>=◌, ◌>>◌, kassert, if◌then◌else◌,
}
use mping.Blocks.{slice, write_at, concat, tabulate_from}
use mping.Collectives.{BufferResizePolicy, resize_if_requested, all_below}

-- What a rank passes; a count that is not given is computed.
pub record Args {ℓ} (A : Type ℓ) : Type ℓ where
  pub send_buf : List A
  pub send_count : Option ℕ
  pub recv_count : Option ℕ
  pub recv_buf : List A
  pub recv_policy : BufferResizePolicy
  pub recv_type_given : Bool

-- What a rank hands to `MPI_Alltoall`.
pub record Call {ℓ} (A : Type ℓ) : Type ℓ where
  pub send_buf : List A
  pub send_count : ℕ
  pub recv_buf : List A
  pub recv_count : ℕ

-- `MPI_Alltoall` for a communicator of the given size; `none` is an error code.
abbrev pub MpiAlltoall {ℓ} : Type ℓ → Type ℓ
MpiAlltoall A = ℕ → (ℕ → Call A) → Option (ℕ → List A)

-- What MPI documents: with one count on all ranks and buffers that hold a block for each rank, block `j`
-- of the receive buffer of a rank is that rank's block of the send buffer of rank `j`.
abbrev pub Exchanges {ℓ} : {A : Type ℓ} → MpiAlltoall A → Type ℓ
Exchanges {A} mpi =
    (p n : ℕ) (calls : ℕ → Call A)
    → ((r : ℕ)
        → r < p
        → ((calls r).send_count ≡ n)
          × ((calls r).recv_count ≡ n)
          × (n * p ≤ length (calls r).send_buf)
          × (n * p ≤ length (calls r).recv_buf))
    → (received : ℕ → List A) × (mpi p calls ≡ some received)
      × ((r : ℕ)
          → r < p
          → received r
            ≡ write_at 0 (concat (tabulate_from 0 p (λ j. slice (calls j).send_buf (r * n) n)))
                (calls r).recv_buf)

pub option_or : Option ℕ → ℕ → ℕ
option_or none d = d
option_or (some n) d = n

pub is_given : Option ℕ → Bool
is_given none = false
is_given (some n) = true

module _ {ℓ} {A : Type ℓ} (blank : A) (p : ℕ) where
  pub send_count_of : Args A → ℕ
  send_count_of a = option_or a.send_count (length a.send_buf / p)

  pub recv_count_of : Args A → ℕ
  recv_count_of a = option_or a.recv_count (send_count_of a)

  pub recv_buf_of : Args A → List A
  recv_buf_of a = resize_if_requested a.recv_policy blank (recv_count_of a * p) a.recv_buf

  -- The assertions of one rank. The last two are that `data()` is not null, which it may be for a
  -- container without elements.
  pub buffers_suffice : Args A → Bool
  buffers_suffice a =
      (is_given a.send_count || (length a.send_buf % p == 0))
      && (a.recv_type_given || leb (recv_count_of a * p) (length (recv_buf_of a)))
      && leb 1 (length a.send_buf)
      && leb 1 (length (recv_buf_of a))

  pub call_of : Args A → Call A
  call_of a = record {
    send_buf = a.send_buf;
    send_count = send_count_of a;
    recv_buf = recv_buf_of a;
    recv_count = recv_count_of a;
  }

  -- The receive buffers of the ranks.
  pub alltoall : MpiAlltoall A → (ℕ → Args A) → Option (ℕ → List A)
  alltoall mpi args = do
    kassert (all_below p (λ r. buffers_suffice (args r)))
    mpi p (λ r. call_of (args r))
