-- ===== src/Grid/Alltoallv.antt =====
-- include/__mping/plugin/alltoall_grid.hpp: `alltoallv_with_envelope` and `alltoallv` of `GridCommunicator`
-- on all ranks together. The row and the column communicators are those of `MPI_Comm_split`; within them
-- the exchanges are calls of `Communicator::alltoallv`.
pub mod Level
pub mod Elements
pub mod Messages
pub mod Arguments
pub mod Delivery
pub mod Refined
mod Tests
use mping.Prelude.{
  ℕ, zero, suc, ◌+◌, ◌<◌, ◌≡◌, Bool, true, false, List, [], ◌∷◌, length, leb, ◌==◌, get_or, take,
  exclusive_scan, Option, none, some, kassert, ◌>>=◌, ◌>>◌, if◌then◌else◌,
}
use mping.Collectives.{BufferResizePolicy, resize_to_fit, resize_if_requested, Param, given, out}
use mping.Blocks.{write_at}
use mping.Collectives.Alltoall.{MpiAlltoall}
use mping.Collectives.Alltoallv
use mping.Collectives.Alltoallv.{MpiAlltoallv}
use mping.Grid.{Split, row_color, col_color}
use mping.Grid.Places.{index_of}
use mping.Grid.Exchange.{
  MessageEnvelopeLevel, with_source, MessageEnvelopeType, Envelope, SourceEnvelope, Outgoing,
  ReceivedBlocks, rowwise_exchange, columnwise_exchange, post_process,
}

-- What each of the ranks below `n` computes, if none of them fails.
abbrev pub each_rank {κ} : {B : Type κ} → B → ℕ → (ℕ → Option B) → Option (ℕ → B)
each_rank blank zero f = some (λ r. blank)
each_rank blank (suc n) f = do
  before ← each_rank blank n f
  x ← f n
  some (λ r. if r == n then x else before r)

pub record Args {ℓ} (A : Type ℓ) : Type ℓ where
  pub send_buf : List A
  pub send_counts : List ℕ
  pub send_displs : Param
  pub recv_counts : Param
  pub recv_displs : Param
  pub recv_buf : List A
  pub recv_policy : BufferResizePolicy

-- The send displacements. That there is room for them is not checked.
abbrev pub send_displs_of : ℕ → Param → List ℕ → Option (List ℕ)
send_displs_of size (given xs) counts = some xs
send_displs_of size (out policy xs) counts =
    let displs = resize_if_requested policy 0 size xs in
    kassert (leb size (length displs))
    >> some (write_at 0 (exclusive_scan 0 (take size counts)) displs)

-- The call of `alltoallv` on a row or a column communicator.
pub level_args {κ} : {B : Type κ} → Outgoing B → Alltoallv.Args B
level_args o = record {
  send_buf = o.send_buf;
  send_counts = o.send_counts;
  send_displs = given o.send_displs;
  recv_counts = out resize_to_fit [];
  recv_displs = out resize_to_fit [];
  recv_buf = [];
  recv_policy = resize_to_fit;
  send_type_given = false;
  recv_type_given = false;
}

module _ (split : Split) (size : ℕ) (mpi : MpiAlltoall ℕ) where
  -- The calls of the ranks of one communicator are one call, of which rank `rank` has its part.
  pub level_exchange {κ} :
      {B : Type κ} → B → MpiAlltoallv B → (ℕ → ℕ) → (ℕ → Outgoing B) → ℕ → Option (List B)
  level_exchange blank mpi_v color outgoing rank = do
    let group = split color size rank
    res ←
        Alltoallv.alltoallv blank (length group) mpi mpi_v
          (λ j. level_args (outgoing (get_or group j 0)))
    some (res (index_of group rank)).recv_buf

  module _ {ℓ} {A : Type ℓ} (blank : Envelope A) (mpi_row : MpiAlltoallv (Envelope A)) where
    pub row_outgoing : (ℕ → Args A) → (ℕ → List ℕ) → ℕ → Outgoing (Envelope A)
    row_outgoing args displs r =
        rowwise_exchange size (length (split (row_color size) size r)) r blank (args r).send_buf
          (args r).send_counts (displs r)

    pub col_outgoing :
        (level : MessageEnvelopeLevel)
        → MessageEnvelopeType level A
        → (ℕ → List (Envelope A))
        → ℕ
        → Outgoing (MessageEnvelopeType level A)
    col_outgoing level entry rows r =
        columnwise_exchange level size (length (split (col_color size) size r)) entry (rows r)

    pub alltoallv_with_envelope :
        (level : MessageEnvelopeLevel)
        → MessageEnvelopeType level A
        → MpiAlltoallv (MessageEnvelopeType level A)
        → (ℕ → Args A)
        → Option (ℕ → List (MessageEnvelopeType level A))
    alltoallv_with_envelope level entry mpi_col args = do
      displs ←
          each_rank [] size (λ r. send_displs_of size (args r).send_displs (args r).send_counts)
      rows ←
          each_rank [] size
            (level_exchange blank mpi_row (row_color size) (row_outgoing args displs))
      each_rank [] size
          (level_exchange entry mpi_col (col_color size) (col_outgoing level entry rows))

    abbrev pub received_by :
        ℕ → (ℕ → Args A) → (ℕ → List (SourceEnvelope A)) → ℕ → Option (ReceivedBlocks A)
    received_by n args received r =
        post_process n (args r).recv_counts (args r).recv_displs (args r).recv_policy blank.payload
          (args r).recv_buf (received r)

    -- The displacements are computed before the exchange, which gets them as given ones.
    abbrev pub with_displs : Args A → List ℕ → Args A
    with_displs a displs = record {
      send_buf = a.send_buf;
      send_counts = a.send_counts;
      send_displs = given displs;
      recv_counts = a.recv_counts;
      recv_displs = a.recv_displs;
      recv_buf = a.recv_buf;
      recv_policy = a.recv_policy;
    }

    pub alltoallv :
        SourceEnvelope A
        → MpiAlltoallv (SourceEnvelope A)
        → (ℕ → Args A)
        → Option (ℕ → ReceivedBlocks A)
    alltoallv entry mpi_col args = do
      displs ←
          each_rank [] size (λ r. send_displs_of size (args r).send_displs (args r).send_counts)
      received ←
          alltoallv_with_envelope with_source entry mpi_col (λ r. with_displs (args r) (displs r))
      each_rank (record { recv_buf = []; recv_counts = []; recv_displs = [] }) size
          (received_by size args received)
