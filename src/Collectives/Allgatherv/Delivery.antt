-- ===== src/Collectives/Allgatherv/Delivery.antt =====
-- `allgatherv` with nothing but the send buffers.
use mathlib.Core.List.{append-nil}
use mping.Prelude.{
  ℕ, ◌+◌, ◌<◌, ◌≡◌, refl, ap, ap₂, sym, ◌∙◌, inr, true, false, List, [], ◌++◌, length, leb, take,
  take-all, drop-all, get_or, sum, exclusive_scan, length-exclusive_scan, exclusive_scan-block-le,
  exclusive_scan-ascends, none, some, arith,
}
use mping.Blocks.{write_all, concat, lengths, tabulate_from}
use mping.Blocks.Scan.{
  write_all-scan, length-resize, concat-singletons, lengths-tabulate_from, tabulate_from-ext,
  length-tabulate_from, get_or-tabulate_from,
}
use mping.Collectives.{resize_to_fit, out, compute_required_recv_buf_size, all_below, sized}
use mping.Collectives.Buffers.{filled-resized, length-sized, all_below-true, same_on_all-const}
use mping.Collectives.RequiredSize.{required_size-agree}
use mping.Collectives.Allgather
use mping.Collectives.Allgather.{MpiAllgather}
use mping.Collectives.Allgather.Delivery.{IsUniform, allgather-concat}
use mping.Collectives.Allgatherv.{
  Args, MpiAllgatherv, IsLegal, Gathers, Outcome, send_count_of, count_args, exchange_counts,
  recv_displs_of, required_recv_buf_size, recv_buf_of, buffers_suffice, call_of, outcome_of,
  allgatherv,
}

abbrev pub sending {ℓ} : {A : Type ℓ} → List A → Args A
sending send_buf = record {
  send_buf = send_buf;
  send_count = none;
  recv_counts = out resize_to_fit [];
  recv_displs = out resize_to_fit [];
  recv_buf = [];
  recv_policy = resize_to_fit;
  recv_type_given = false;
}

module _ {ℓ} {A : Type ℓ} (blank : A) (p : ℕ) (positive : 0 < p) (sb : ℕ → List A) where
  abbrev all_args : ℕ → Args A
  all_args r = sending (sb r)

  abbrev all_blocks : List (List A)
  all_blocks = tabulate_from 0 p sb

  abbrev all_counts : List ℕ
  all_counts = tabulate_from 0 p (λ r. length (sb r))

  counts-length : length all_counts ≡ p
  counts-length = length-tabulate_from 0 p (λ r. length (sb r))

  sizes : all_counts ≡ lengths all_blocks
  sizes = sym (lengths-tabulate_from 0 p sb)

  uniform : (r : ℕ) → r < p → IsUniform 1 p (count_args blank p (all_args r))
  unfolding count_args
  uniform r l = record {
    no_send_count = refl;
    no_recv_count = refl;
    block = refl;
    sized = inr (refl, omega (arith, length-sized p []));
  }

  counts_exchanged :
      (mpi : MpiAllgather ℕ)
      → Allgather.Gathers mpi
      → (counts : ℕ → List ℕ) × (exchange_counts blank p mpi all_args ≡ some counts)
        × ((r : ℕ) → r < p → counts r ≡ all_counts)
  unfolding exchange_counts count_args send_count_of
  counts_exchanged mpi law =
      let (counts, e, values) =
        allgather-concat 0 p 1 mpi (λ j. count_args blank p (all_args j)) uniform positive law in
      (counts, e, λ r l. values r l ∙ concat-singletons 0 p (λ j. length (sb j)))

  displs-scan :
      (a : List A) → recv_displs_of blank p (sending a) all_counts ≡ exclusive_scan 0 all_counts
  unfolding recv_displs_of
  displs-scan a = rw (take-all all_counts p (omega (arith, counts-length))) (
      filled-resized p [] (exclusive_scan 0 all_counts)
        (omega (arith, length-exclusive_scan 0 all_counts, counts-length)))

  required-sum :
      (a : List A) → required_recv_buf_size blank p (sending a) all_counts ≡ sum all_counts
  unfolding required_recv_buf_size
  required-sum a = rw (displs-scan a) (
      ap (λ n. compute_required_recv_buf_size true all_counts (exclusive_scan 0 all_counts) n)
        (sym counts-length)
      ∙ (required_size-agree all_counts (omega (arith, counts-length))).0)

  length-recv_buf :
      (a : List A) → length (recv_buf_of blank p (sending a) all_counts) ≡ sum all_counts
  unfolding recv_buf_of
  length-recv_buf a =
      length-resize blank (required_recv_buf_size blank p (sending a) all_counts) []
      ∙ required-sum a

  suffice : (a : List A) → buffers_suffice blank p (sending a) all_counts ≡ true
  unfolding buffers_suffice
  suffice a = rw (required-sum a, length-recv_buf a, length-sized p []) (ground arith)

  -- The rest of a call, once the counts have been exchanged.
  module _ (counts : ℕ → List ℕ) (exchanged : (r : ℕ) → r < p → counts r ≡ all_counts) where
    displs :
        (r : ℕ)
        → r < p
        → recv_displs_of blank p (all_args r) (counts r) ≡ exclusive_scan 0 all_counts
    displs r l = ap (recv_displs_of blank p (all_args r)) (exchanged r l) ∙ displs-scan (sb r)

    buffer : (r : ℕ) → r < p → length (recv_buf_of blank p (all_args r) (counts r)) ≡ sum all_counts
    buffer r l =
        ap (λ c. length (recv_buf_of blank p (all_args r) c)) (exchanged r l)
        ∙ length-recv_buf (sb r)

    legal : IsLegal p (λ r. call_of blank p (all_args r) (counts r))
    unfolding call_of send_count_of
    legal = record {
      agree = λ r j h l.
          ap (λ c. get_or c j 0) (exchanged r h)
          ∙ get_or-tabulate_from 0 p (λ i. length (sb i)) j 0 l
          ∙ (let e : 0 + j ≡ j = omega arith in ap (λ i. length (sb i)) e);
      sends = λ r l. omega arith;
      fits = λ r j h l.
          rw (displs r h, exchanged r h)
            (omega (
              arith,
              buffer r h,
              ap (λ c. length (recv_buf_of blank p (all_args r) c)) (exchanged r h),
              exclusive_scan-block-le 0 all_counts j (omega (arith, counts-length)),
            ));
      apart = λ r i j h k l.
          rw (displs r h, exchanged r h)
            (exclusive_scan-ascends 0 all_counts i j k (omega (arith, counts-length)));
    }

    all_suffice : all_below p (λ r. buffers_suffice blank p (all_args r) (counts r)) ≡ true
    all_suffice =
        all_below-true p (λ r. buffers_suffice blank p (all_args r) (counts r))
          (λ r l. ap (buffers_suffice blank p (all_args r)) (exchanged r l) ∙ suffice (sb r))

    -- The blocks fill the buffer of a rank.
    received-concat :
        (r : ℕ)
        → r < p
        → write_all
            (recv_displs_of blank p (all_args r) (counts r))
            (tabulate_from 0 p (λ j. take (length (sb j)) (sb j)))
            (recv_buf_of blank p (all_args r) (counts r))
          ≡ concat all_blocks
    received-concat r l =
        ap₂ (λ ds bs. write_all ds bs (recv_buf_of blank p (all_args r) (counts r)))
          (displs r l ∙ ap (exclusive_scan 0) sizes)
          (tabulate_from-ext 0 p (λ j. take (length (sb j)) (sb j)) sb
            (λ j h. take-all (sb j) (length (sb j)) (omega arith)))
        ∙ write_all-scan all_blocks (recv_buf_of blank p (all_args r) (counts r))
        ∙ ap (◌++◌ (concat all_blocks)) (
            drop-all (recv_buf_of blank p (all_args r) (counts r)) (sum (lengths all_blocks))
              (omega (arith, buffer r l, ap sum sizes)))
        ∙ append-nil (concat all_blocks)

  sized_counts : all_below p (λ r. leb p (length (sized p (out resize_to_fit [])))) ≡ true
  sized_counts =
      all_below-true p (λ r. leb p (length (sized p (out resize_to_fit []))))
        (λ r l. ground (arith, length-sized p []))

  -- In a communicator that is not empty, `allgatherv` of any send buffers, with all else left to
  -- the library, succeeds; on every rank the receive buffer is the concatenation of the send
  -- buffers in rank order, the counts are their lengths and the displacements the prefix sums of
  -- these. MPI is assumed to gather the counts and the blocks.
  pub allgatherv-concat :
      (mpi : MpiAllgather ℕ) (mpi_v : MpiAllgatherv A)
      → Allgather.Gathers mpi
      → Gathers mpi_v
      → (res : ℕ → Outcome A) × (allgatherv blank p mpi mpi_v all_args ≡ some res)
        × ((r : ℕ)
            → r < p
            → ((res r).recv_buf ≡ concat all_blocks)
              × ((res r).recv_counts ≡ all_counts)
              × ((res r).recv_displs ≡ exclusive_scan 0 all_counts))
  unfolding allgatherv call_of outcome_of send_count_of
  allgatherv-concat mpi mpi_v law law_v =
      let (counts, e, exchanged) = counts_exchanged mpi law in
      let (received, e_v, values) =
        law_v p (λ r. call_of blank p (all_args r) (counts r)) (legal counts exchanged) in
      (
        λ r. outcome_of blank p (all_args r) (counts r) (received r),
        rw
            (
              same_on_all-const p (λ r. true) (λ r. refl),
              sized_counts,
              e,
              all_suffice counts exchanged,
              e_v,
            )
            refl,
        λ r l. (
          values r l ∙ received-concat counts exchanged r l,
          exchanged r l,
          displs counts exchanged r l,
        ),
      )
