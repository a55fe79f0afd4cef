-- ===== src/Collectives/Gather.antt =====
-- collectives/gather.hpp: `gather`, which collects blocks of one size at the root.
-- `MPI_Gather` is a parameter.
pub mod Delivery
use mping.Prelude.{
  ℕ, zero, suc, ◌+◌, ◌*◌, ◌<◌, ◌≤◌, ◌≡◌, ◌≢◌, Bool, true, false, ◌&&◌, ◌||◌, List, [], ◌∷◌, length,
  leb, ltb, ◌==◌, take, Option, none, some, ◌>>=◌, ◌>>◌, kassert, if◌then◌else◌,
}
use mping.Blocks.{write_at, concat, tabulate_from}
use mping.Collectives.{BufferResizePolicy, resize_if_requested, all_below}

-- What a rank passes; a count that is not given is computed.
pub record Args {ℓ} (A : Type ℓ) : Type ℓ where
  pub send_buf : List A
  pub send_count : Option ℕ
  pub recv_count : Option ℕ
  pub recv_buf : List A
  pub recv_policy : BufferResizePolicy
  pub recv_type_given : Bool
  pub root : ℕ

-- What a rank hands to `MPI_Gather`; only the root's receive buffer and count are read.
pub record Call {ℓ} (A : Type ℓ) : Type ℓ where
  pub send_buf : List A
  pub send_count : ℕ
  pub recv_buf : List A
  pub recv_count : ℕ

-- `MPI_Gather` for a communicator of the given size and a root; `none` is an error code.
abbrev pub MpiGather {ℓ} : Type ℓ → Type ℓ
MpiGather A = ℕ → ℕ → (ℕ → Call A) → Option (ℕ → List A)

-- What MPI documents: with one count on all ranks the blocks stand in the root's receive buffer in rank
-- order, and the receive buffers of the others are not touched.
abbrev pub Gathers {ℓ} : {A : Type ℓ} → MpiGather A → Type ℓ
Gathers {A} mpi =
    (p root n : ℕ) (calls : ℕ → Call A)
    → root < p
    → (calls root).recv_count ≡ n
    → n * p ≤ length (calls root).recv_buf
    → ((r : ℕ) → r < p → ((calls r).send_count ≡ n) × (n ≤ length (calls r).send_buf))
    → (received : ℕ → List A) × (mpi p root calls ≡ some received)
      × (received root
          ≡ write_at 0 (concat (tabulate_from 0 p (λ j. take n (calls j).send_buf)))
              (calls root).recv_buf)
      × ((r : ℕ) → r ≢ root → received r ≡ (calls r).recv_buf)

abbrev pub option_or : Option ℕ → ℕ → ℕ
option_or none d = d
option_or (some n) d = n

module _ {ℓ} {A : Type ℓ} (blank : A) (p : ℕ) where
  pub send_count_of : Args A → ℕ
  send_count_of a = option_or a.send_count (length a.send_buf)

  pub recv_count_of : Args A → ℕ
  recv_count_of a = option_or a.recv_count (send_count_of a)

  -- The receive buffer of rank `r`; only the root's is resized.
  pub recv_buf_of : ℕ → Args A → List A
  recv_buf_of r a =
      if r == a.root
      then resize_if_requested a.recv_policy blank (recv_count_of a * p) a.recv_buf
      else a.recv_buf

  -- The assertions of rank `r`.
  pub buffers_suffice : ℕ → Args A → Bool
  buffers_suffice r a =
      ltb a.root p
      && (if r == a.root
          then a.recv_type_given || leb (recv_count_of a * p) (length (recv_buf_of r a))
          else true)

  pub call_of : ℕ → Args A → Call A
  call_of r a = record {
    send_buf = a.send_buf;
    send_count = send_count_of a;
    recv_buf = recv_buf_of r a;
    recv_count = recv_count_of a;
  }

  -- The receive buffers of the ranks.
  pub gather : MpiGather A → (ℕ → Args A) → Option (ℕ → List A)
  gather mpi args = do
    kassert (all_below p (λ r. (args r).root == (args 0).root))
    kassert (all_below p (λ r. buffers_suffice r (args r)))
    mpi p (args 0).root (λ r. call_of r (args r))
