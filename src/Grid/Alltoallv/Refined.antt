-- ===== src/Grid/Alltoallv/Refined.antt =====
-- The grid's `alltoallv` gives every rank what one call of `Communicator::alltoallv` gives it.
use mping.Prelude.{
  ℕ, zero, suc, ◌<◌, ◌≤◌, ◌≡◌, refl, ap, sym, ◌∙◌, List, [], ◌∷◌, ◌++◌, map, length, length-map,
  get_or, sum, exclusive_scan, exclusive_scan-block-le, some, arith,
}
use mping.Blocks.{slice, concat, tabulate_from}
use mping.Blocks.Scan.{tabulate_from-ext, length-slice}
use mping.Buckets.{bucket, buckets_from, sizes_from, Keys}
use mping.Buckets.Filter.{bucket-map}
use mping.Collectives.Alltoall.{MpiAlltoall, Exchanges}
use mping.Collectives.Alltoallv
use mping.Collectives.Alltoallv.{MpiAlltoallv}
use mping.Collectives.Alltoallv.Delivery.{alltoallv-concat}
use mping.Collectives.Alltoallv.Calls.{Delivers, with_defaults}
use mping.Collectives.{resize_to_fit, out}
use mping.Grid.{Split}
use mping.Grid.Routing.{SplitByRank}
use mping.Grid.Exchange.{
  Envelope, SourceEnvelope, ReceivedBlocks, with_source, entry_for, post_process,
}
use mping.Grid.Exchange.Elements.{enveloped}
use mping.Grid.Exchange.Received.{post_process-ordered}
use mping.Grid.Alltoallv.{send_displs_of, received_by, with_displs, alltoallv}
use mping.Grid.Alltoallv.Level.{each_rank-some}
use mping.Grid.Alltoallv.Elements.{col_received-Keys}
use mping.Grid.Alltoallv.Messages.{col_received-message}
use mping.Grid.Alltoallv.Delivery.{sizes, came_by_column, alltoallv_with_envelope-came}
use mping.Grid.Alltoallv.Arguments.{sending, send_displs_of-scan, map-concat}

module _ {ℓ} {A : Type ℓ} (key : A → ℕ) where
  buckets_from-concat :
      (k n : ℕ) (xs : List A)
      → buckets_from key k n xs ≡ concat (tabulate_from k n (λ s. bucket key s xs))
  buckets_from-concat k zero xs = refl
  buckets_from-concat k (suc n) xs =
      ap (λ r. bucket key k xs ++ r) (buckets_from-concat (suc k) n xs)

  sizes_from-lengths :
      (k n : ℕ) (xs : List A)
      → sizes_from key k n xs ≡ tabulate_from k n (λ s. length (bucket key s xs))
  sizes_from-lengths k zero xs = refl
  sizes_from-lengths k (suc n) xs =
      ap (λ r. length (bucket key k xs) ∷ r) (sizes_from-lengths (suc k) n xs)

module _ {ℓ} {A : Type ℓ} (split : Split) (size : ℕ) (h : 0 < size) (law : SplitByRank split)
    (mpi : MpiAlltoall ℕ) (exchanges : Exchanges mpi) (sb : ℕ → List A) (sc : ℕ → List ℕ)
    (each : (r : ℕ) → r < size → (length (sc r) ≡ size) × (sum (sc r) ≤ length (sb r))) where
  abbrev message : ℕ → ℕ → List A
  message s d = slice (sb s) (get_or (exclusive_scan 0 (sc s)) d 0) (get_or (sc s) d 0)

  -- What a rank has before the elements are ordered
  abbrev unordered : ℕ → List (SourceEnvelope A)
  unordered d =
      map (entry_for with_source) (came_by_column split size h law mpi exchanges sb sc each d)

  abbrev source : SourceEnvelope A → ℕ
  source e = e.get_source

  payloads :
      (s d : ℕ) (xs : List A)
      → map
          (λ (e : SourceEnvelope A). e.get_payload)
          (map (entry_for with_source) (map (enveloped s d) xs))
        ≡ xs
  payloads s d [] = refl
  payloads s d (x ∷ xs) = ap (λ r. x ∷ r) (payloads s d xs)

  unordered-bucket :
      (s d : ℕ)
      → s < size
      → d < size
      → bucket source s (unordered d)
        ≡ map (entry_for with_source) (map (enveloped s d) (message s d))
  unordered-bucket s d k l =
      bucket-map (entry_for with_source) source s
        (came_by_column split size h law mpi exchanges sb sc each d)
      ∙ ap (map (entry_for with_source)) (
          col_received-message size h sb sc (sizes split size h law mpi exchanges sb sc each) s d k
            l)

  Keys-sources :
      (xs : List (Envelope A))
      → Keys (λ e. e.source) size xs
      → Keys source size (map (entry_for with_source) xs)
  Keys-sources [] k = tt
  Keys-sources (x ∷ xs) k = (k.0, Keys-sources xs k.1)

  unordered-Keys : (d : ℕ) → Keys source size (unordered d)
  unordered-Keys d =
      Keys-sources (came_by_column split size h law mpi exchanges sb sc each d)
        (col_received-Keys size h sb sc (sizes split size h law mpi exchanges sb sc each) d)

  ordered :
      (d : ℕ)
      → d < size
      → map (λ e. e.get_payload) (buckets_from source 0 size (unordered d))
        ≡ concat (tabulate_from 0 size (λ s. message s d))
  ordered d l =
      ap (map (λ e. e.get_payload)) (buckets_from-concat source 0 size (unordered d))
      ∙ map-concat (λ (e : SourceEnvelope A). e.get_payload) 0 size
          (λ s. bucket source s (unordered d))
      ∙ ap concat (
          tabulate_from-ext 0 size (λ s. map (λ e. e.get_payload) (bucket source s (unordered d)))
            (λ s. message s d)
            (λ s k.
              ap (map (λ e. e.get_payload)) (unordered-bucket s d (omega arith) l)
              ∙ payloads s d (message s d)))

  counted :
      (d : ℕ)
      → d < size
      → sizes_from source 0 size (unordered d) ≡ tabulate_from 0 size (λ s. get_or (sc s) d 0)
  counted d l =
      sizes_from-lengths source 0 size (unordered d)
      ∙ tabulate_from-ext 0 size (λ s. length (bucket source s (unordered d)))
          (λ s. get_or (sc s) d 0)
          (λ s k.
            ap length (unordered-bucket s d (omega arith) l)
            ∙ length-map (map (enveloped s d) (message s d)) (entry_for with_source)
            ∙ length-map (message s d) (enveloped s d)
            ∙ length-slice (sb s) (get_or (exclusive_scan 0 (sc s)) d 0) (get_or (sc s) d 0) (
                omega (
                  arith,
                  exclusive_scan-block-le 0 (sc s) d (omega (arith, each s (omega arith))),
                  each s (omega arith),
                )))

  abbrev got : ℕ → ReceivedBlocks A
  got d = record {
    recv_buf = map (λ e. e.get_payload) (buckets_from source 0 size (unordered d));
    recv_counts = sizes_from source 0 size (unordered d);
    recv_displs = exclusive_scan 0 (sizes_from source 0 size (unordered d));
  }

  -- On a communicator of any size that is not empty, with one send count for each rank and a send
  -- buffer of at least their sum on every rank, and all else left to the library, the grid's
  -- `alltoallv` and `alltoallv` of the communicator itself both succeed and give every rank the
  -- same receive buffer, counts and displacements. `MPI_Comm_split` is assumed to group the ranks
  -- by color in rank order, and MPI to exchange the counts and to deliver the blocks.
  pub alltoallv-refines :
      (blank : Envelope A) (entry : SourceEnvelope A) (mpi_row : MpiAlltoallv (Envelope A))
      (mpi_col : MpiAlltoallv (SourceEnvelope A)) (mpi_direct : MpiAlltoallv A)
      → Delivers mpi_row
      → Delivers mpi_col
      → Delivers mpi_direct
      → (grid : ℕ → ReceivedBlocks A) × (direct : ℕ → Alltoallv.Outcome A) × (alltoallv split size
            mpi blank mpi_row entry mpi_col
            (λ r. sending (sb r) (sc r))
          ≡ some grid)
        × (Alltoallv.alltoallv blank.payload size mpi mpi_direct (λ r. with_defaults (sb r) (sc r))
            ≡ some direct)
        × ((d : ℕ)
            → d < size
            → ((grid d).recv_buf ≡ (direct d).recv_buf)
              × ((grid d).recv_counts ≡ (direct d).recv_counts)
              × ((grid d).recv_displs ≡ (direct d).recv_displs))
  unfolding alltoallv
  alltoallv-refines blank entry mpi_row mpi_col mpi_direct row col whole =
      let (direct, done, values) =
        alltoallv-concat blank.payload size h sb sc each mpi mpi_direct exchanges whole in
      let (displs, e, scanned) =
        each_rank-some [] size (λ r. send_displs_of size (sending (sb r) (sc r)).send_displs (sc r))
          (λ r. exclusive_scan 0 (sc r)) (λ r l. send_displs_of-scan size (sc r) (each r l).0) in
      let (received, e', came) =
        alltoallv_with_envelope-came split size h law mpi exchanges sb sc each with_source entry
          blank mpi_row mpi_col row col
          (λ r. with_displs split size mpi blank mpi_row (sending (sb r) (sc r)) (displs r))
          (λ r. refl) (λ r. refl) (λ r l. ap some (scanned r l)) in
      let (grid, e'', all) =
        each_rank-some (record { recv_buf = []; recv_counts = []; recv_displs = [] }) size
          (received_by split size mpi blank mpi_row size (λ r. sending (sb r) (sc r)) received) got
          (λ d l.
            ap
              (λ xs.
                post_process size (out resize_to_fit []) (out resize_to_fit []) resize_to_fit
                  blank.payload [] xs)
              (came d l)
            ∙ post_process-ordered size blank.payload (unordered d) h (unordered-Keys d)) in
      (
        grid,
        direct,
        rw (e, e', e'') refl,
        done,
        λ d l. (
          ap (λ g. g.recv_buf) (all d l) ∙ ordered d l ∙ sym (values d l).0,
          ap (λ g. g.recv_counts) (all d l) ∙ counted d l ∙ sym (values d l).1,
          ap (λ g. g.recv_displs) (all d l)
              ∙ ap (exclusive_scan 0) (counted d l)
              ∙ sym (values d l).2,
        ),
      )
