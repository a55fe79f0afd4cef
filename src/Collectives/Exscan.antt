-- ===== src/Collectives/Exscan.antt =====
-- collectives/exscan.hpp: `exscan` and `exscan_inplace`, the exclusive prefix reduction over the ranks.
-- `MPI_Exscan` is a parameter; it leaves the buffer of rank 0 undefined, which the library then fills.
pub mod Prefixes
pub mod Delivery
use mping.Prelude.{
  ℕ, zero, suc, ◌+◌, ◌<◌, ◌≤◌, ◌≡◌, Bool, true, false, ◌&&◌, ◌||◌, List, [], ◌∷◌, length, leb, ◌==◌,
  take, replicate, get_or, Option, none, some, ◌>>=◌, ◌>>◌, kassert, if◌then◌else◌,
}
use mping.Blocks.{write_at}
use mping.Collectives.{BufferResizePolicy, resize_if_requested, all_below}
use mping.Collectives.Bcast.{value_or}

pub record Args {ℓ} (A : Type ℓ) : Type ℓ where
  pub send_buf : List A
  pub send_recv_count : Option ℕ
  pub recv_buf : List A
  pub policy : BufferResizePolicy
  pub type_given : Bool
  pub values_on_rank_0 : Option (List A)

pub record InPlaceArgs {ℓ} (A : Type ℓ) : Type ℓ where
  pub send_recv_buf : List A
  pub send_recv_count : Option ℕ
  pub policy : BufferResizePolicy
  pub type_given : Bool
  pub values_on_rank_0 : Option (List A)

-- What a rank hands to `MPI_Exscan`; no send buffer is `MPI_IN_PLACE`.
pub record Call {ℓ} (A : Type ℓ) : Type ℓ where
  pub sent : Option (List A)
  pub recv_buf : List A
  pub count : ℕ

abbrev pub MpiExscan {ℓ} : Type ℓ → Type ℓ
MpiExscan A = (A → A → A) → ℕ → (ℕ → Call A) → Option (ℕ → List A)

-- The operation on each element
abbrev pub zip_with {ℓ} : {A : Type ℓ} → (A → A → A) → List A → List A → List A
zip_with op [] ys = []
zip_with op (x ∷ xs) [] = []
zip_with op (x ∷ xs) (y ∷ ys) = op x y ∷ zip_with op xs ys

-- The blocks of the ranks up to `r`, combined in the order of the ranks
abbrev pub prefix {ℓ} : {A : Type ℓ} → (A → A → A) → (ℕ → List A) → ℕ → List A
prefix op blocks zero = blocks 0
prefix op blocks (suc r) = zip_with op (prefix op blocks r) (blocks (suc r))

abbrev pub contributed {ℓ} : {A : Type ℓ} → Call A → List A
contributed call = take call.count (value_or call.sent call.recv_buf)

-- What MPI documents: with one count on all ranks and an associative operation, each rank but the first
-- has the blocks before its own combined; what is in the buffer of rank 0 is not defined.
abbrev pub Scans {ℓ} : {A : Type ℓ} → MpiExscan A → Type ℓ
Scans {A} mpi =
    (op : A → A → A) (p n : ℕ) (calls : ℕ → Call A)
    → ((a b c : A) → op (op a b) c ≡ op a (op b c))
    → ((r : ℕ)
        → r < p
        → ((calls r).count ≡ n)
          × (n ≤ length (value_or (calls r).sent (calls r).recv_buf))
          × (n ≤ length (calls r).recv_buf))
    → (received : ℕ → List A) × (mpi op p calls ≡ some received)
      × (length (received 0) ≡ length (calls 0).recv_buf)
      × ((r : ℕ)
          → suc r < p
          → received (suc r)
            ≡ write_at 0 (prefix op (λ j. contributed (calls j)) r) (calls (suc r)).recv_buf)

module _ {ℓ} {A : Type ℓ} (blank : A) (p : ℕ) (op : A → A → A) (identity : Option A) where
  -- `std::fill_n` and `std::copy_n`, which must stay inside the buffer.
  pub write_start : List A → List A → Option (List A)
  write_start values buffer =
      kassert (leb (length values) (length buffer)) >> some (write_at 0 values buffer)

  -- The identity is there for an operation that MPI knows.
  pub fill_identity : Option A → ℕ → List A → Option (List A)
  fill_identity none count buffer = some buffer
  fill_identity (some e) count buffer = write_start (replicate count e) buffer

  pub on_rank_0 : Option (List A) → Bool → ℕ → List A → Option (List A)
  on_rank_0 none type_given count buffer = fill_identity identity count buffer
  on_rank_0 (some values) type_given count buffer =
      kassert (type_given || ((length values == 1) || (length values == count)))
      >> (if length values == 1
          then write_start (replicate count (get_or values 0 blank)) buffer
          else write_start values buffer)

  pub count_of : Args A → ℕ
  count_of a = value_or a.send_recv_count (length a.send_buf)

  pub recv_buf_of : Args A → List A
  recv_buf_of a = resize_if_requested a.policy blank (count_of a) a.recv_buf

  pub buffer_suffices : Args A → Bool
  buffer_suffices a = a.type_given || leb (count_of a) (length (recv_buf_of a))

  pub call_of : Args A → Call A
  call_of a = record { sent = some a.send_buf; recv_buf = recv_buf_of a; count = count_of a }

  pub exscan : MpiExscan A → (ℕ → Args A) → Option (ℕ → List A)
  exscan mpi args = do
    kassert (all_below p (λ r. length (args r).send_buf == length (args 0).send_buf))
    kassert (all_below p (λ r. count_of (args r) == count_of (args 0)))
    kassert (all_below p (λ r. buffer_suffices (args r)))
    received ← mpi op p (λ r. call_of (args r))
    first ← on_rank_0 (args 0).values_on_rank_0 (args 0).type_given (count_of (args 0)) (received 0)
    some (λ r. if r == 0 then first else received r)

  pub inplace_count_of : InPlaceArgs A → ℕ
  inplace_count_of a = value_or a.send_recv_count (length a.send_recv_buf)

  pub buffer_of : InPlaceArgs A → List A
  buffer_of a = resize_if_requested a.policy blank (inplace_count_of a) a.send_recv_buf

  pub buffer_fits : InPlaceArgs A → Bool
  buffer_fits a = a.type_given || leb (inplace_count_of a) (length (buffer_of a))

  pub inplace_call_of : InPlaceArgs A → Call A
  inplace_call_of a = record { sent = none; recv_buf = buffer_of a; count = inplace_count_of a }

  pub exscan_inplace : MpiExscan A → (ℕ → InPlaceArgs A) → Option (ℕ → List A)
  exscan_inplace mpi args = do
    kassert (all_below p (λ r. inplace_count_of (args r) == inplace_count_of (args 0)))
    kassert (all_below p (λ r. buffer_fits (args r)))
    received ← mpi op p (λ r. inplace_call_of (args r))
    first ←
        on_rank_0 (args 0).values_on_rank_0 (args 0).type_given (inplace_count_of (args 0))
          (received 0)
    some (λ r. if r == 0 then first else received r)
