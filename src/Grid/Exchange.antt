-- ===== src/Grid/Exchange.antt =====
-- include/__mping/plugin/alltoall_grid.hpp: what a rank sends in the row exchange and in the column
-- exchange, and how it orders what it has received. A row message always carries its source here; with
-- `no_envelope` nothing reads it. The two exchanges themselves are `Communicator::alltoallv`.
pub mod Sent
pub mod Elements
pub mod Fitting
pub mod Received
use mping.Prelude.{
  ℕ, zero, suc, ◌+◌, ◌-◌, Bool, List, [], ◌∷◌, ◌++◌, map, Option, none, some, leb, length, get_or,
  replicate, exclusive_scan, kassert, ◌>>=◌, ◌>>◌,
}
use mping.Blocks.{slice, write_at}
use mping.Buckets.{count_loop, place_loop, places_inside}
use mping.Grid.{get_destination_in_rowwise_exchange, get_destination_in_colwise_exchange}
use mping.Collectives.{BufferResizePolicy, resize_if_requested, Param, given, out}

pub data MessageEnvelopeLevel : Type 0 where
  no_envelope with_source with_source_and_destination : MessageEnvelopeLevel

-- `MessageEnvelope<T, Source, Destination>`
pub record Envelope {ℓ} (A : Type ℓ) : Type ℓ where
  pub source : ℕ
  pub destination : ℕ
  pub payload : A

-- `MessageEnvelope<T, Source>`
pub record SourceEnvelope {ℓ} (A : Type ℓ) : Type ℓ where
  pub get_source : ℕ
  pub get_payload : A

abbrev pub MessageEnvelopeType {ℓ} : MessageEnvelopeLevel → Type ℓ → Type ℓ
MessageEnvelopeType no_envelope A = A
MessageEnvelopeType with_source A = SourceEnvelope A
MessageEnvelopeType with_source_and_destination A = Envelope A

-- The entry of the column exchange for an element that the row exchange has brought.
abbrev pub entry_for {ℓ} :
    {A : Type ℓ} (level : MessageEnvelopeLevel) → Envelope A → MessageEnvelopeType level A
entry_for no_envelope e = e.payload
entry_for with_source e = record { get_source = e.source; get_payload = e.payload }
entry_for with_source_and_destination e = e

-- The arguments of an exchange at one rank.
pub record Outgoing {ℓ} (A : Type ℓ) : Type ℓ where
  pub send_buf : List A
  pub send_counts : List ℕ
  pub send_displs : List ℕ

-- `counts[i] += c`
abbrev pub add_at : List ℕ → ℕ → ℕ → List ℕ
add_at [] i c = []
add_at (x ∷ counts) zero c = (x + c) ∷ counts
add_at (x ∷ counts) (suc i) c = x ∷ add_at counts i c

-- The loop of `compute_row_send_counts` from destination `i` on.
abbrev pub add_row_counts : ℕ → ℕ → List ℕ → List ℕ → List ℕ
add_row_counts size i row_send_counts [] = row_send_counts
add_row_counts size i row_send_counts (c ∷ send_counts) =
    add_row_counts size (suc i)
      (add_at row_send_counts (get_destination_in_rowwise_exchange size i) c) send_counts

pub compute_row_send_counts : ℕ → ℕ → List ℕ → List ℕ
compute_row_send_counts size row_size send_counts =
    add_row_counts size 0 (replicate row_size 0) send_counts

-- `.back()` of a span.
abbrev pub back : List ℕ → ℕ
back xs = get_or xs (length xs - 1) 0

pub record ReceivedBlocks {ℓ} (A : Type ℓ) : Type ℓ where
  pub recv_buf : List A
  pub recv_counts : List ℕ
  pub recv_displs : List ℕ

-- The displacements: given, or the prefix sums of all the counts, which a shorter buffer does not hold.
abbrev pub recv_displs_of : ℕ → Param → List ℕ → Option (List ℕ)
recv_displs_of size (given xs) recv_counts = some xs
recv_displs_of size (out policy xs) recv_counts =
    let displs = resize_if_requested policy 0 size xs in
    kassert (leb size (length displs))
    >> (kassert (leb (length recv_counts) (length displs))
        >> some (write_at 0 (exclusive_scan 0 recv_counts) displs))

module _ {ℓ} {A : Type ℓ} where
  -- The elements in the order of the two nested loops of `rowwise_exchange`, from destination `i` on.
  abbrev pub sent : ℕ → ℕ → List A → List ℕ → List ℕ → List (Envelope A)
  sent rank i send_buf [] displs = []
  sent rank i send_buf (c ∷ counts) [] = []
  sent rank i send_buf (c ∷ counts) (d ∷ displs) =
      map (λ x. record { source = rank; destination = i; payload = x }) (slice send_buf d c)
      ++ sent rank (suc i) send_buf counts displs

  pub rowwise_exchange : ℕ → ℕ → ℕ → Envelope A → List A → List ℕ → List ℕ → Outgoing (Envelope A)
  rowwise_exchange size row_size rank blank send_buf send_counts send_displs =
      let row_send_counts = compute_row_send_counts size row_size send_counts in
      let row_send_displs = exclusive_scan 0 row_send_counts in
      let total_send_count = back row_send_displs + back row_send_counts in
      record {
        send_buf =
            place_loop (λ e. get_destination_in_rowwise_exchange size e.destination) (λ e. e)
              row_send_displs (replicate total_send_count blank)
              (sent rank 0 send_buf send_counts send_displs);
        send_counts = row_send_counts;
        send_displs = row_send_displs;
      }

  pub columnwise_exchange :
      (level : MessageEnvelopeLevel)
      → ℕ
      → ℕ
      → MessageEnvelopeType level A
      → List (Envelope A)
      → Outgoing (MessageEnvelopeType level A)
  columnwise_exchange level size column_size blank rowwise_recv_buf =
      let in_column : Envelope A → ℕ =
        λ e. get_destination_in_colwise_exchange size e.destination in
      let send_counts = count_loop in_column (replicate column_size 0) rowwise_recv_buf in
      let send_offsets = exclusive_scan 0 send_counts in
      record {
        send_buf =
            place_loop in_column (entry_for level) send_offsets
              (replicate (length rowwise_recv_buf) blank) rowwise_recv_buf;
        send_counts = send_counts;
        send_displs = send_offsets;
      }

  -- To write outside the buffer, or to use a displacement that is not there, is undefined.
  pub write_recv_buffer :
      BufferResizePolicy → A → List A → List ℕ → List ℕ → List (SourceEnvelope A) → Option (List A)
  write_recv_buffer policy blank recv_buf recv_counts recv_displs grid_recv_buffer =
      let required = back recv_displs + back recv_counts in
      let buffer = resize_if_requested policy blank required recv_buf in
      kassert (leb required (length buffer))
      >> (kassert (places_inside (λ e. e.get_source) (length buffer) recv_displs grid_recv_buffer)
          >> some (
              place_loop (λ e. e.get_source) (λ e. e.get_payload) recv_displs buffer
                grid_recv_buffer))

  -- The counts after the exchange: counted, or given and of sufficient length.
  abbrev pub recv_counts_of : ℕ → Param → List (SourceEnvelope A) → Option (List ℕ)
  recv_counts_of size (given xs) grid_recv_buf = kassert (leb size (length xs)) >> some xs
  recv_counts_of size (out policy xs) grid_recv_buf =
      let counts = resize_if_requested policy 0 size xs in
      kassert (leb size (length counts))
      >> some (count_loop (λ e. e.get_source) (replicate (length counts) 0) grid_recv_buf)

  -- The part of `alltoallv` behind the exchange.
  pub post_process :
      ℕ
      → Param
      → Param
      → BufferResizePolicy
      → A
      → List A
      → List (SourceEnvelope A)
      → Option (ReceivedBlocks A)
  post_process size counts displs policy blank recv_buf grid_recv_buf = do
    recv_counts ← recv_counts_of size counts grid_recv_buf
    recv_displs ← recv_displs_of size displs recv_counts
    buffer ← write_recv_buffer policy blank recv_buf recv_counts recv_displs grid_recv_buf
    some (record { recv_buf = buffer; recv_counts = recv_counts; recv_displs = recv_displs })
