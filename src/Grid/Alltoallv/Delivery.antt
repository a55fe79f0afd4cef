-- ===== src/Grid/Alltoallv/Delivery.antt =====
-- `alltoallv_with_envelope` brings each element to its destination.
use mping.Prelude.{
  subst, ℕ, ◌<◌, ◌≤◌, ◌≡◌, refl, ap, sym, ◌∙◌, List, [], map, length, get_or, sum, exclusive_scan,
  some, arith,
}
use mping.Blocks.{slice, concat}
use mping.Blocks.Scan.{tabulate_from-ext}
use mping.Buckets.{bucket, Keys}
use mping.Collectives.Alltoall.{MpiAlltoall, Exchanges}
use mping.Collectives.Alltoallv.{MpiAlltoallv}
use mping.Collectives.Alltoallv.Calls.{Delivers}
use mping.Grid.{Split, row_color, col_color}
use mping.Grid.Members.{members}
use mping.Grid.Shape.{shape}
use mping.Grid.Places.{index_of, members-at}
use mping.Grid.Routing.{SplitByRank}
use mping.Grid.Relays.{row-size}
use mping.Grid.Exchange.{
  Envelope, MessageEnvelopeLevel, MessageEnvelopeType, entry_for, Outgoing, rowwise_exchange,
  columnwise_exchange,
}
use mping.Grid.Exchange.Sent.{
  Inside, in_row, in_column, block_of, rowwise_exchange-block, columnwise_exchange-block,
}
use mping.Grid.Exchange.Fitting.{
  IsOutgoing, rowwise_exchange-IsOutgoing, columnwise_exchange-IsOutgoing,
}
use mping.Grid.Alltoallv.{
  Args, send_displs_of, level_exchange, row_outgoing, col_outgoing, alltoallv_with_envelope,
}
use mping.Grid.Alltoallv.Level.{each_rank-some, level_exchange-blocks, index-lt}
use mping.Grid.Alltoallv.Elements.{
  displs, row_group, col_group, elements, row_received, col_received, row_received-Keys,
  col_received-Keys,
}
use mping.Grid.Alltoallv.Messages.{col_received-message}
use mping.Grid.Exchange.Elements.{enveloped}
use mping.Grid.Alltoallv.Arguments.{sending, Inside-scan, send_displs_of-scan, map-concat}

module _ {ℓ} {A : Type ℓ} (split : Split) (size : ℕ) (h : 0 < size) (law : SplitByRank split)
    (mpi : MpiAlltoall ℕ) (exchanges : Exchanges mpi) (sb : ℕ → List A) (sc : ℕ → List ℕ)
    (each : (r : ℕ) → r < size → (length (sc r) ≡ size) × (sum (sc r) ≤ length (sb r))) where
  pub sizes : (r : ℕ) → r < size → length (sc r) ≡ size
  sizes r l = (each r l).0

  abbrev pub came_by_column : ℕ → List (Envelope A)
  came_by_column = col_received size h sb sc sizes

  abbrev scan_of : ℕ → List ℕ
  scan_of = displs size h sb sc sizes

  module _ (blank : Envelope A) (mpi_row : MpiAlltoallv (Envelope A))
      (delivers_row : Delivers mpi_row) (args : ℕ → Args A)
      (bufs : (r : ℕ) → (args r).send_buf ≡ sb r) (counts : (r : ℕ) → (args r).send_counts ≡ sc r)
      (scans : ℕ → List ℕ) (scanned : (r : ℕ) → r < size → scans r ≡ scan_of r) where
    abbrev row_calls : ℕ → Outgoing (Envelope A)
    row_calls = row_outgoing split size mpi blank mpi_row args scans

    abbrev group : ℕ → List ℕ
    group = row_group size h sb sc sizes

    row_calls-same :
        (r : ℕ)
        → r < size
        → row_calls r ≡ rowwise_exchange size (length (group r)) r blank (sb r) (sc r) (scan_of r)
    unfolding row_outgoing
    row_calls-same r l = rw (law (row_color size) size r l, scanned r l, bufs r, counts r) refl

    inside : (r : ℕ) → r < size → Inside (length (sb r)) (sc r) (scan_of r)
    inside r l = Inside-scan (length (sb r)) 0 (sc r) (omega (arith, each r l))

    row_calls-fit : (r : ℕ) → r < size → IsOutgoing (length (group r)) (row_calls r)
    row_calls-fit r l = subst (IsOutgoing (length (group r))) (sym (row_calls-same r l)) (
        rowwise_exchange-IsOutgoing size (length (group r)) r blank (sb r) (sc r) (scan_of r)
          (inside r l) (omega (arith, row-size size h r l, shape size h)))

    row_level :
        (m : ℕ)
        → m < size
        → level_exchange split size mpi blank mpi_row (row_color size) row_calls m
          ≡ some (row_received size h sb sc sizes m)
    row_level m l =
        let i = index_of (group m) m in
        level_exchange-blocks split size law mpi exchanges blank mpi_row delivers_row
          (row_color size) row_calls row_calls-fit m l
        ∙ ap (λ bs. some (concat bs))
            (tabulate_from-ext 0 (length (group m))
              (λ j. block_of (row_calls (get_or (group m) j 0)) i)
              (λ j. bucket (in_row size) i (elements size h sb sc sizes (get_or (group m) j 0)))
              (λ j k.
                let x = get_or (group m) j 0 in
                let (x_in, color, place) =
                  members-at (row_color size) (row_color size m) size j (omega arith) in
                ap (λ o. block_of o i) (row_calls-same x x_in)
                ∙ rowwise_exchange-block size (length (group x)) x i blank (sb x) (sc x) (scan_of x)
                    (inside x x_in) (shape size h).0 (row-size size h x x_in)
                    (omega (
                      arith,
                      ap (λ c. length (members (row_color size) c size)) color,
                      index-lt split size law mpi exchanges blank mpi_row delivers_row
                          (row_color size) row_calls row_calls-fit m l,
                    ))))

  module _ (level : MessageEnvelopeLevel) (entry : MessageEnvelopeType level A)
      (mpi_col : MpiAlltoallv (MessageEnvelopeType level A)) (delivers_col : Delivers mpi_col)
      (blank : Envelope A) (mpi_row : MpiAlltoallv (Envelope A)) (rows : ℕ → List (Envelope A))
      (came : (r : ℕ) → r < size → rows r ≡ row_received size h sb sc sizes r) where
    abbrev col_calls : ℕ → Outgoing (MessageEnvelopeType level A)
    col_calls = col_outgoing split size mpi blank mpi_row level entry rows

    abbrev column : ℕ → List ℕ
    column = col_group size h sb sc sizes

    col_calls-same :
        (r : ℕ)
        → r < size
        → col_calls r
          ≡ columnwise_exchange level size
              (length (column r))
              entry
              (row_received size h sb sc sizes r)
    unfolding col_outgoing
    col_calls-same r l = rw (law (col_color size) size r l, came r l) refl

    col_calls-fit : (r : ℕ) → r < size → IsOutgoing (length (column r)) (col_calls r)
    col_calls-fit r l = subst (IsOutgoing (length (column r))) (sym (col_calls-same r l)) (
        columnwise_exchange-IsOutgoing level size (length (column r)) entry
          (row_received size h sb sc sizes r) (row_received-Keys size h sb sc sizes r l))

    col_level :
        (d : ℕ)
        → d < size
        → level_exchange split size mpi entry mpi_col (col_color size) col_calls d
          ≡ some (map (entry_for level) (came_by_column d))
    col_level d l =
        let i = index_of (column d) d in
        level_exchange-blocks split size law mpi exchanges entry mpi_col delivers_col
          (col_color size) col_calls col_calls-fit d l
        ∙ ap (λ bs. some (concat bs))
            (tabulate_from-ext 0 (length (column d))
              (λ j. block_of (col_calls (get_or (column d) j 0)) i)
              (λ j. map (entry_for level) (
                bucket (in_column size) i
                  (row_received size h sb sc sizes (get_or (column d) j 0))))
              (λ j k.
                let x = get_or (column d) j 0 in
                let (x_in, color, place) =
                  members-at (col_color size) (col_color size d) size j (omega arith) in
                ap (λ o. block_of o i) (col_calls-same x x_in)
                ∙ columnwise_exchange-block level size (length (column x)) i entry
                    (row_received size h sb sc sizes x)
                    (row_received-Keys size h sb sc sizes x x_in)
                    (omega (
                      arith,
                      ap (λ c. length (members (col_color size) c size)) color,
                      index-lt split size law mpi exchanges entry mpi_col delivers_col
                          (col_color size) col_calls col_calls-fit d l,
                    ))))
        ∙ ap some (
            sym (
              map-concat (entry_for level) 0 (length (column d)) (λ j.
                bucket (in_column size) i
                  (row_received size h sb sc sizes (get_or (column d) j 0)))))

  pub alltoallv_with_envelope-came :
      (level : MessageEnvelopeLevel) (entry : MessageEnvelopeType level A) (blank : Envelope A)
      (mpi_row : MpiAlltoallv (Envelope A)) (mpi_col : MpiAlltoallv (MessageEnvelopeType level A))
      → Delivers mpi_row
      → Delivers mpi_col
      → (args : ℕ → Args A) → ((r : ℕ) → (args r).send_buf ≡ sb r)
      → ((r : ℕ) → (args r).send_counts ≡ sc r)
      → ((r : ℕ)
          → r < size
          → send_displs_of size (args r).send_displs (args r).send_counts
            ≡ some (exclusive_scan 0 (sc r)))
      → (res : ℕ → List (MessageEnvelopeType level A)) × (alltoallv_with_envelope split size mpi
            blank mpi_row level entry mpi_col args
          ≡ some res)
        × ((d : ℕ) → d < size → res d ≡ map (entry_for level) (came_by_column d))
  unfolding alltoallv_with_envelope
  alltoallv_with_envelope-came level entry blank mpi_row mpi_col delivers_row delivers_col args bufs
        counts laid =
      let (scans, e, scanned) =
        each_rank-some [] size (λ r. send_displs_of size (args r).send_displs (args r).send_counts)
          scan_of laid in
      let (rows, e', came) =
        each_rank-some [] size
          (level_exchange split size mpi blank mpi_row (row_color size)
            (row_outgoing split size mpi blank mpi_row args scans))
          (row_received size h sb sc sizes)
          (row_level blank mpi_row delivers_row args bufs counts scans scanned) in
      let (res, e'', got) =
        each_rank-some [] size
          (level_exchange split size mpi entry mpi_col (col_color size)
            (col_outgoing split size mpi blank mpi_row level entry rows))
          (λ d. map (entry_for level) (came_by_column d))
          (col_level level entry mpi_col delivers_col blank mpi_row rows came) in
      (res, rw (e, e', e'') refl, got)

  -- On a communicator of any size that is not empty, with one send count for each rank and a send
  -- buffer of at least their sum on every rank, and the displacements left to the library,
  -- `alltoallv_with_envelope` succeeds at every envelope level, with the same assumptions on MPI as
  -- for the grid's `alltoallv`: what a rank receives are elements whose sources are ranks of the
  -- communicator, each with the envelope of the level, and those of one source are its message for
  -- the rank, in the order of the source's send buffer.
  pub alltoallv_with_envelope-messages :
      (level : MessageEnvelopeLevel) (entry : MessageEnvelopeType level A) (blank : Envelope A)
      (mpi_row : MpiAlltoallv (Envelope A)) (mpi_col : MpiAlltoallv (MessageEnvelopeType level A))
      → Delivers mpi_row
      → Delivers mpi_col
      → (res : ℕ → List (MessageEnvelopeType level A)) × (alltoallv_with_envelope split size mpi
            blank mpi_row level entry mpi_col
            (λ r. sending (sb r) (sc r))
          ≡ some res)
        × ((d : ℕ)
            → d < size
            → (came : List (Envelope A)) × (res d ≡ map (entry_for level) came)
              × Keys (λ e. e.source) size came
              × ((s : ℕ)
                  → s < size
                  → bucket (λ e. e.source) s came
                    ≡ map
                        (enveloped s d)
                        (slice (sb s) (get_or (exclusive_scan 0 (sc s)) d 0) (get_or (sc s) d 0))))
  alltoallv_with_envelope-messages level entry blank mpi_row mpi_col delivers_row delivers_col =
      let (res, e, got) =
        alltoallv_with_envelope-came level entry blank mpi_row mpi_col delivers_row delivers_col
          (λ r. sending (sb r) (sc r)) (λ r. refl) (λ r. refl)
          (λ r l. send_displs_of-scan size (sc r) (each r l).0) in
      (
        res,
        e,
        λ d l. (
          came_by_column d,
          got d l,
          col_received-Keys size h sb sc sizes d,
          λ s k. col_received-message size h sb sc sizes s d k l,
        ),
      )
