-- ===== src/Collectives/Allgather.antt =====
-- collectives/allgather.hpp: `allgather` and `allgather_inplace`, by which every rank gets the blocks of
-- all. `MPI_Allgather` is a parameter.
pub mod Delivery
pub mod InPlace
use mping.Prelude.{
  ℕ, zero, suc, ◌+◌, ◌*◌, ◌/◌, ◌%◌, ◌<◌, ◌≤◌, ◌≡◌, Bool, true, false, ◌&&◌, ◌||◌, List, [], ◌∷◌,
  length, leb, ◌==◌, take, Option, none, some, ◌>>=◌, ◌>>◌, kassert, if◌then◌else◌,
}
use mping.Blocks.{slice, write_at, concat, tabulate_from}
use mping.Collectives.{BufferResizePolicy, resize_if_requested, all_below}
use mping.Collectives.Bcast.{is_given, value_or}

pub record Args {ℓ} (A : Type ℓ) : Type ℓ where
  pub send_buf : List A
  pub send_count : Option ℕ
  pub recv_count : Option ℕ
  pub recv_buf : List A
  pub recv_policy : BufferResizePolicy
  pub send_type_given : Bool
  pub recv_type_given : Bool

pub record InPlaceArgs {ℓ} (A : Type ℓ) : Type ℓ where
  pub send_recv_buf : List A
  pub send_recv_count : Option ℕ
  pub policy : BufferResizePolicy
  pub type_given : Bool

-- What a rank sends: nothing is `MPI_IN_PLACE`.
abbrev pub Sent {ℓ} : Type ℓ → Type ℓ
Sent A = Option (List A × ℕ)

-- What a rank hands to `MPI_Allgather`.
pub record Call {ℓ} (A : Type ℓ) : Type ℓ where
  pub sent : Sent A
  pub recv_buf : List A
  pub recv_count : ℕ

abbrev pub MpiAllgather {ℓ} : Type ℓ → Type ℓ
MpiAllgather A = ℕ → (ℕ → Call A) → Option (ℕ → List A)

-- A rank that sends in place has its block in the receive buffer.
abbrev pub block_of {ℓ} : {A : Type ℓ} → ℕ → ℕ → Sent A → List A → List A
block_of r n none recv_buf = slice recv_buf (r * n) n
block_of r n (some (send_buf, send_count)) recv_buf = take n send_buf

abbrev pub Offers {ℓ} : {A : Type ℓ} → ℕ → Sent A → Type 0
Offers n none = Unit
Offers n (some (send_buf, send_count)) = (send_count ≡ n) × (n ≤ length send_buf)

-- What MPI documents: with one count on all ranks, the blocks of all ranks are written one after the
-- other to the start of each receive buffer.
abbrev pub Gathers {ℓ} : {A : Type ℓ} → MpiAllgather A → Type ℓ
Gathers {A} mpi =
    (p n : ℕ) (calls : ℕ → Call A)
    → ((r : ℕ)
        → r < p
        → Offers n (calls r).sent
          × ((calls r).recv_count ≡ n)
          × (n * p ≤ length (calls r).recv_buf))
    → (received : ℕ → List A) × (mpi p calls ≡ some received)
      × ((r : ℕ)
          → r < p
          → received r
            ≡ write_at 0
                (concat (tabulate_from 0 p (λ j. block_of j n (calls j).sent (calls j).recv_buf)))
                (calls r).recv_buf)

module _ {ℓ} {A : Type ℓ} (blank : A) (p : ℕ) where
  pub send_count_of : Args A → ℕ
  send_count_of a = value_or a.send_count (length a.send_buf)

  pub recv_count_of : Args A → ℕ
  recv_count_of a = value_or a.recv_count (send_count_of a)

  pub recv_buf_of : Args A → List A
  recv_buf_of a = resize_if_requested a.recv_policy blank (recv_count_of a * p) a.recv_buf

  pub buffer_suffices : Args A → Bool
  buffer_suffices a = a.recv_type_given || leb (recv_count_of a * p) (length (recv_buf_of a))

  pub call_of : Args A → Call A
  call_of a = record {
    sent = some (a.send_buf, send_count_of a);
    recv_buf = recv_buf_of a;
    recv_count = recv_count_of a;
  }

  pub allgather : MpiAllgather A → (ℕ → Args A) → Option (ℕ → List A)
  allgather mpi args = do
    kassert (
        all_below p
          (λ r. (args r).send_type_given || (length (args r).send_buf == length (args 0).send_buf)))
    kassert (all_below p (λ r. buffer_suffices (args r)))
    mpi p (λ r. call_of (args r))

  -- In place the block of a rank is already where it belongs.
  pub count_of : InPlaceArgs A → ℕ
  count_of a = value_or a.send_recv_count (length a.send_recv_buf / p)

  pub divisible : InPlaceArgs A → Bool
  divisible a = is_given a.send_recv_count || (length a.send_recv_buf % p == 0)

  pub buffer_of : InPlaceArgs A → List A
  buffer_of a = resize_if_requested a.policy blank (count_of a * p) a.send_recv_buf

  pub buffer_fits : InPlaceArgs A → Bool
  buffer_fits a = a.type_given || leb (count_of a * p) (length (buffer_of a))

  pub inplace_call_of : InPlaceArgs A → Call A
  inplace_call_of a = record { sent = none; recv_buf = buffer_of a; recv_count = count_of a }

  pub allgather_inplace : MpiAllgather A → (ℕ → InPlaceArgs A) → Option (ℕ → List A)
  allgather_inplace mpi args = do
    kassert (
        all_below p (λ r.
          (args r).type_given || (length (args r).send_recv_buf == length (args 0).send_recv_buf)))
    kassert (all_below p (λ r. divisible (args r)))
    kassert (all_below p (λ r. buffer_fits (args r)))
    mpi p (λ r. inplace_call_of (args r))
