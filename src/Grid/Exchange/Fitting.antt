-- ===== src/Grid/Exchange/Fitting.antt =====
-- The calls of the two exchanges fit together: counts, displacements and buffer.
use mping.Prelude.{
  ℕ, ◌+◌, ◌-◌, ◌<◌, ◌≤◌, ◌≡◌, refl, ap, sym, ◌∙◌, List, [], ◌∷◌, length, get_or, set, length-set,
  replicate, length-replicate, sum, exclusive_scan, arith,
}
use mping.Buckets.{increment, count_loop, place_loop, sizes_from, Keys}
use mping.Buckets.Placed.{count_loop-sizes, length-sizes}
use mping.Buckets.Block.{sum-sizes}
use mping.Grid.Exchange.{
  Envelope, MessageEnvelopeLevel, MessageEnvelopeType, entry_for, Outgoing, back,
  compute_row_send_counts, sent, rowwise_exchange, columnwise_exchange,
}
use mping.Grid.Exchange.Sent.{in_row, in_column, Inside, count_loop-sent, back-sum}

-- Counts for `n` ranks, the displacements that belong to them, and a buffer for all the elements.
pub record IsOutgoing {κ} {B : Type κ} (n : ℕ) (o : Outgoing B) : Type κ where
  pub one_each : length o.send_counts ≡ n
  pub scan : o.send_displs ≡ exclusive_scan 0 o.send_counts
  pub room : sum o.send_counts ≤ length o.send_buf

length-place_loop {ℓ κ} :
    {A : Type ℓ} {B : Type κ} (key : A → ℕ) (f : A → B) (positions : List ℕ) (buffer : List B)
    (xs : List A)
    → length (place_loop key f positions buffer xs) ≡ length buffer
unfolding place_loop
length-place_loop key f positions buffer [] = refl
length-place_loop key f positions buffer (x ∷ xs) =
    length-place_loop key f (increment positions (key x))
      (set buffer (get_or positions (key x) 0) (f x)) xs
    ∙ length-set buffer (get_or positions (key x) 0) (f x)

module _ {ℓ} {A : Type ℓ} where
  pub rowwise_exchange-IsOutgoing :
      (size row_size rank : ℕ) (blank : Envelope A) (send_buf : List A)
      (send_counts send_displs : List ℕ)
      → Inside (length send_buf) send_counts send_displs
      → 0 < row_size
      → IsOutgoing row_size
          (rowwise_exchange size row_size rank blank send_buf send_counts send_displs)
  unfolding rowwise_exchange compute_row_send_counts
  rowwise_exchange-IsOutgoing size row_size rank blank send_buf counts displs inside positive =
      let row_counts = compute_row_send_counts size row_size counts in
      let counted : row_counts
          ≡ sizes_from (in_row size) 0 row_size (sent rank 0 send_buf counts displs) =
        sym (count_loop-sent size rank 0 send_buf (replicate row_size 0) counts displs inside)
        ∙ count_loop-sizes (in_row size) row_size (sent rank 0 send_buf counts displs) in
      let one_each : length row_counts ≡ row_size =
        ap length counted
        ∙ length-sizes (in_row size) 0 row_size (sent rank 0 send_buf counts displs) in
      let total = back (exclusive_scan 0 row_counts) + back row_counts in
      record {
        one_each = one_each;
        scan = refl;
        room = omega (
          arith,
          length-place_loop (in_row size) (λ e. e) (exclusive_scan 0 row_counts)
              (replicate total blank) (sent rank 0 send_buf counts displs),
          length-replicate total blank,
          back-sum (row_size - 1) row_counts (omega (arith, one_each)),
        );
      }

  pub columnwise_exchange-IsOutgoing :
      (level : MessageEnvelopeLevel) (size column_size : ℕ) (blank : MessageEnvelopeType level A)
      (received : List (Envelope A))
      → Keys (in_column size) column_size received
      → IsOutgoing column_size (columnwise_exchange level size column_size blank received)
  unfolding columnwise_exchange
  columnwise_exchange-IsOutgoing level size column_size blank received keys =
      let counts = count_loop (in_column size) (replicate column_size 0) received in
      let counted : counts ≡ sizes_from (in_column size) 0 column_size received =
        count_loop-sizes (in_column size) column_size received in
      record {
        one_each = ap length counted ∙ length-sizes (in_column size) 0 column_size received;
        scan = refl;
        room = omega (
          arith,
          ap sum counted,
          sum-sizes (in_column size) column_size received keys,
          length-place_loop (in_column size) (entry_for level) (exclusive_scan 0 counts)
              (replicate (length received) blank) received,
          length-replicate (length received) blank,
        );
      }
