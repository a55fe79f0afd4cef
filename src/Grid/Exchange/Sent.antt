-- ===== src/Grid/Exchange/Sent.antt =====
-- What the buffers of the two exchanges hold for each rank of the row and of the column.
use native.Mathlib.Nat.{mod-lt}
use mping.Prelude.{
  ℕ, zero, suc, ◌+◌, ◌-◌, ◌<◌, ◌≤◌, ◌≡◌, refl, ap, ap₂, sym, ◌∙◌, List, [], ◌∷◌, ◌++◌, map, get_or,
  length, replicate, sum, exclusive_scan, length-exclusive_scan, last-exclusive_scan, arith,
}
use mping.Blocks.{slice}
use mping.Blocks.Scan.{length-slice}
use mping.Buckets.{increment, count_loop, place_loop, bucket, sizes_from, Keys}
use mping.Buckets.Placed.{count_loop-sizes, length-sizes}
use mping.Buckets.Block.{place_loop-block, sum-sizes, count_loop-append}
use mping.Grid.{
  get_destination_in_rowwise_exchange, get_destination_in_colwise_exchange, num_columns,
}
use mping.Grid.Exchange.{
  Envelope, MessageEnvelopeLevel, MessageEnvelopeType, entry_for, Outgoing, add_at, add_row_counts,
  compute_row_send_counts, back, sent, rowwise_exchange, columnwise_exchange,
}

abbrev pub in_row {ℓ} : {A : Type ℓ} → ℕ → Envelope A → ℕ
in_row size e = get_destination_in_rowwise_exchange size e.destination

abbrev pub in_column {ℓ} : {A : Type ℓ} → ℕ → Envelope A → ℕ
in_column size e = get_destination_in_colwise_exchange size e.destination

-- The messages lie inside the send buffer, and each has a displacement.
abbrev pub Inside : ℕ → List ℕ → List ℕ → Type 0
Inside n [] displs = Unit {0}
Inside n (c ∷ counts) [] = ⊥
Inside n (c ∷ counts) (d ∷ displs) = (d + c ≤ n) × Inside n counts displs

abbrev pub block_of {ℓ} : {A : Type ℓ} → Outgoing A → ℕ → List A
block_of o j = slice o.send_buf (get_or o.send_displs j 0) (get_or o.send_counts j 0)

add_at-increment : (cs : List ℕ) (k c : ℕ) → add_at (increment cs k) k c ≡ add_at cs k (suc c)
add_at-increment [] k c = refl
add_at-increment (x ∷ cs) zero c = ap (λ y. y ∷ cs) (omega arith)
add_at-increment (x ∷ cs) (suc k) c = ap (λ r. x ∷ r) (add_at-increment cs k c)

add_at-zero : (cs : List ℕ) (k : ℕ) → cs ≡ add_at cs k 0
add_at-zero [] k = refl
add_at-zero (x ∷ cs) zero = ap (λ y. y ∷ cs) (omega arith)
add_at-zero (x ∷ cs) (suc k) = ap (λ r. x ∷ r) (add_at-zero cs k)

pub back-sum :
    (m : ℕ) (xs : List ℕ) → length xs ≡ suc m → back (exclusive_scan 0 xs) + back xs ≡ sum xs
back-sum m xs e =
    let at_scan : length (exclusive_scan 0 xs) - 1 ≡ m =
      omega (arith, length-exclusive_scan 0 xs) in
    let at_end : length xs - 1 ≡ m = omega arith in
    rw (at_scan, at_end) (omega (arith, last-exclusive_scan 0 xs m e))

row-lt :
    (size i : ℕ)
    → 0 < num_columns size
    → get_destination_in_rowwise_exchange size i < num_columns size
unfolding get_destination_in_rowwise_exchange
row-lt size i h = mod-lt i h

module _ {ℓ} {A : Type ℓ} where
  count_loop-message :
      (size rank i : ℕ) (cs : List ℕ) (xs : List A)
      → count_loop
          (in_row size)
          cs
          (map (λ (x : A). record { source = rank; destination = i; payload = x }) xs)
        ≡ add_at cs (get_destination_in_rowwise_exchange size i) (length xs)
  unfolding count_loop
  count_loop-message size rank i cs [] = add_at-zero cs _
  count_loop-message size rank i cs (x ∷ xs) =
      count_loop-message size rank i (increment cs _) xs ∙ add_at-increment cs _ (length xs)

  count_loop-nil : (key : Envelope A → ℕ) (cs : List ℕ) → count_loop key cs [] ≡ cs
  unfolding count_loop
  count_loop-nil key cs = refl

  pub count_loop-sent :
      (size rank i : ℕ) (send_buf : List A) (cs send_counts displs : List ℕ)
      → Inside (length send_buf) send_counts displs
      → count_loop (in_row size) cs (sent rank i send_buf send_counts displs)
        ≡ add_row_counts size i cs send_counts
  count_loop-sent size rank i send_buf cs [] displs h = count_loop-nil (in_row size) cs
  count_loop-sent size rank i send_buf cs (c ∷ counts) [] h = absurd h
  count_loop-sent size rank i send_buf cs (c ∷ counts) (d ∷ displs) h =
      count_loop-append (in_row size) cs _ _
      ∙ ap (λ r. count_loop (in_row size) r (sent rank (suc i) send_buf counts displs))
          (count_loop-message size rank i cs (slice send_buf d c)
            ∙ ap (add_at cs (get_destination_in_rowwise_exchange size i))
                (length-slice send_buf d c h.0))
      ∙ count_loop-sent size rank (suc i) send_buf _ counts displs h.1

  Keys-append :
      (key : Envelope A → ℕ) (m : ℕ) (xs ys : List (Envelope A))
      → Keys key m xs
      → Keys key m ys
      → Keys key m (xs ++ ys)
  Keys-append key m [] ys k l = l
  Keys-append key m (x ∷ xs) ys k l = (k.0, Keys-append key m xs ys k.1 l)

  Keys-message :
      (size rank i m : ℕ) (xs : List A)
      → get_destination_in_rowwise_exchange size i < m
      → Keys
          (in_row size)
          m
          (map (λ (x : A). record { source = rank; destination = i; payload = x }) xs)
  Keys-message size rank i m [] h = tt
  Keys-message size rank i m (x ∷ xs) h = (h, Keys-message size rank i m xs h)

  Keys-sent :
      (size rank i m : ℕ) (send_buf : List A) (send_counts displs : List ℕ)
      → 0 < num_columns size
      → num_columns size ≤ m
      → Keys (in_row size) m (sent rank i send_buf send_counts displs)
  Keys-sent size rank i m send_buf [] displs h l = tt
  Keys-sent size rank i m send_buf (c ∷ counts) [] h l = tt
  Keys-sent size rank i m send_buf (c ∷ counts) (d ∷ displs) h l =
      Keys-append (in_row size) m _ _
        (Keys-message size rank i m (slice send_buf d c) (omega (arith, row-lt size i h)))
        (Keys-sent size rank (suc i) m send_buf counts displs h l)

  map_self : (xs : List (Envelope A)) → map (λ e. e) xs ≡ xs
  map_self [] = refl
  map_self (x ∷ xs) = ap (λ r. x ∷ r) (map_self xs)

  -- If the messages lie inside the send buffer, the grid has columns and the row at least as many
  -- ranks as columns, then block `j` of the buffer of the row exchange, at the displacement and
  -- with the count that the call gives to MPI, has just the elements whose destination is in column
  -- `j`, in the order of the messages, for each rank `j` of the row.
  pub rowwise_exchange-block :
      (size row_size rank j : ℕ) (blank : Envelope A) (send_buf : List A)
      (send_counts send_displs : List ℕ)
      → Inside (length send_buf) send_counts send_displs
      → 0 < num_columns size
      → num_columns size ≤ row_size
      → j < row_size
      → block_of (rowwise_exchange size row_size rank blank send_buf send_counts send_displs) j
        ≡ bucket (in_row size) j (sent rank 0 send_buf send_counts send_displs)
  unfolding rowwise_exchange compute_row_send_counts
  rowwise_exchange-block size row_size rank j blank send_buf counts displs h c l hj =
      ap (λ cs. block_of (outgoing cs) j)
        (sym (count_loop-sent size rank 0 send_buf (replicate row_size 0) counts displs h)
          ∙ count_loop-sizes (in_row size) row_size elements)
      ∙ ap
          (λ n.
            slice
              (place_loop (in_row size) (λ e. e) (exclusive_scan 0 sizes) (replicate n blank)
                elements)
              (get_or (exclusive_scan 0 sizes) j 0) (get_or sizes j 0))
          (back-sum (row_size - 1) sizes
            (omega (arith, length-sizes (in_row size) 0 row_size elements)))
      ∙ place_loop-block (in_row size) (λ e. e) blank row_size elements j
          (Keys-sent size rank 0 row_size send_buf counts displs c l) hj
      ∙ map_self _
    where
      elements : List (Envelope A)
      elements = sent rank 0 send_buf counts displs

      sizes : List ℕ
      sizes = sizes_from (in_row size) 0 row_size elements

      outgoing : List ℕ → Outgoing (Envelope A)
      outgoing cs = record {
        send_buf =
            place_loop (in_row size) (λ e. e) (exclusive_scan 0 cs)
              (replicate (back (exclusive_scan 0 cs) + back cs) blank) elements;
        send_counts = cs;
        send_displs = exclusive_scan 0 cs;
      }

  -- If every received element is for a row of the column communicator, then block `j` of the buffer
  -- of the column exchange has just the elements whose destination is in row `j`, in the order in
  -- which they came, each with the envelope of the level, for each rank `j` of the column.
  pub columnwise_exchange-block :
      (level : MessageEnvelopeLevel) (size column_size j : ℕ) (blank : MessageEnvelopeType level A)
      (received : List (Envelope A))
      → Keys (in_column size) column_size received
      → j < column_size
      → block_of (columnwise_exchange level size column_size blank received) j
        ≡ map (entry_for level) (bucket (in_column size) j received)
  unfolding columnwise_exchange
  columnwise_exchange-block level size column_size j blank received ks h =
      ap₂
        (λ cs n.
          slice
            (place_loop (in_column size) (entry_for level) (exclusive_scan 0 cs) (replicate n blank)
              received)
            (get_or (exclusive_scan 0 cs) j 0) (get_or cs j 0))
        (count_loop-sizes (in_column size) column_size received)
        (sym (sum-sizes (in_column size) column_size received ks))
      ∙ place_loop-block (in_column size) (entry_for level) blank column_size received j ks h
