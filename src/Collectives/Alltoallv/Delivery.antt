-- ===== src/Collectives/Alltoallv/Delivery.antt =====
-- `alltoallv` with nothing but the send buffer and the send counts: every other buffer is new and is
-- resized to fit.
use mathlib.Core.List.{append-nil}
use mping.Prelude.{
  ℕ, ◌+◌, ◌*◌, ◌<◌, ◌≤◌, ◌≡◌, refl, ap, sym, ◌∙◌, inr, true, List, [], ◌∷◌, ◌++◌, length, drop-all,
  get_or, sum, exclusive_scan, length-exclusive_scan, exclusive_scan-block-le,
  exclusive_scan-ascends, some, arith,
}
use mping.Blocks.{slice, write_all, concat, lengths, tabulate_from}
use mping.Blocks.Scan.{
  write_all-scan, length-slice, slice-one, concat-singletons, lengths-tabulate_from,
  tabulate_from-ext, length-tabulate_from, get_or-tabulate_from,
}
use mping.Collectives.{resize_to_fit, Param, has_to_be_computed, out, all_below, same_on_all}
use mping.Collectives.Buffers.{filled-resized, length-sized, all_below-true, same_on_all-const}
use mping.Collectives.Alltoall.{MpiAlltoall, Exchanges}
use mping.Collectives.Alltoall.Delivery.{IsUniform, alltoall-concat}
use mping.Collectives.Alltoallv.{
  Args, Call, Outcome, MpiAlltoallv, alltoallv, exchange_counts, count_args, send_displs_of,
  recv_displs_of, recv_buf_of, buffers_suffice, call_of, outcome_of,
}
use mping.Collectives.Alltoallv.Calls.{Delivers, with_params, with_defaults, IsLaidOut, IsLegal}
use mping.Collectives.Alltoallv.Rank.{send_displs-scan, recv_displs-scan, length-recv_buf, suffice}

module _ {ℓ} {A : Type ℓ} (blank : A) (p : ℕ) (positive : 0 < p) (sd : ℕ → Param) (sb : ℕ → List A)
    (sc : ℕ → List ℕ) (laid_out : (r : ℕ) → r < p → IsLaidOut p (sd r) (sc r))
    (alike : same_on_all p (λ r. has_to_be_computed (sd r)) ≡ true)
    (each : (r : ℕ) → r < p → (length (sc r) ≡ p) × (sum (sc r) ≤ length (sb r))) where
  abbrev all_args : ℕ → Args A
  all_args r = with_params (sd r) (sb r) (sc r)

  -- What the counts of the others say that rank `r` receives.
  abbrev received_counts : ℕ → List ℕ
  received_counts r = tabulate_from 0 p (λ j. get_or (sc j) r 0)

  uniform : (r : ℕ) → r < p → IsUniform 1 p (count_args blank p (all_args r))
  unfolding count_args
  uniform r h = record {
    no_send_count = refl;
    no_recv_count = refl;
    blocks = omega (arith, each r h);
    sized = inr (refl, omega (arith, length-sized p []));
  }

  counts_exchanged :
      (mpi : MpiAlltoall ℕ)
      → Exchanges mpi
      → (counts : ℕ → List ℕ) × (exchange_counts blank p mpi all_args ≡ some counts)
        × ((r : ℕ) → r < p → counts r ≡ received_counts r)
  unfolding exchange_counts count_args
  counts_exchanged mpi law =
      let (counts, e, values) =
        alltoall-concat 0 p 1 mpi (λ j. count_args blank p (all_args j)) positive (omega arith)
          uniform law in
      (
        counts,
        e,
        λ r h.
            values r h
            ∙ ap concat (tabulate_from-ext 0 p _ _ (λ j l. one_block r h j (omega arith)))
            ∙ concat-singletons 0 p _,
      )
    where
      one_block :
          (r : ℕ) → r < p → (j : ℕ) → j < p → slice (sc j) (r * 1) 1 ≡ get_or (sc j) r 0 ∷ []
      one_block r h j l =
          let e : r * 1 ≡ r = omega arith in rw e (slice-one (sc j) r 0 (omega (arith, each j l)))

  -- The message from rank `j` to rank `r`.
  abbrev message : ℕ → ℕ → List A
  message r j = slice (sb j) (get_or (exclusive_scan 0 (sc j)) r 0) (get_or (sc j) r 0)

  message-length : (r j : ℕ) → r < p → j < p → length (message r j) ≡ get_or (sc j) r 0
  message-length r j h l =
      length-slice (sb j) _ _
        (omega (arith, exclusive_scan-block-le 0 (sc j) r (omega (arith, each j l)), each j l))

  calls_of : (ℕ → List ℕ) → ℕ → Call A
  calls_of counts r = call_of blank p (all_args r) (counts r)

  -- The rest of a call, once the counts `counts` have been exchanged.
  module _ (counts : ℕ → List ℕ) (exchanged : (r : ℕ) → r < p → counts r ≡ received_counts r) where
    counts-length : (r : ℕ) → r < p → length (counts r) ≡ p
    counts-length r h = rw (exchanged r h) (length-tabulate_from 0 p _)

    displs-scan :
        (r : ℕ)
        → r < p
        → recv_displs_of blank p (all_args r) (counts r) ≡ exclusive_scan 0 (counts r)
    displs-scan r h =
        recv_displs-scan blank p positive (sd r) (sb r) (sc r) (counts r) (laid_out r h)
          (each r h).0 (counts-length r h) (each r h).1

    buffer-length :
        (r : ℕ) → r < p → length (recv_buf_of blank p (all_args r) (counts r)) ≡ sum (counts r)
    buffer-length r h =
        length-recv_buf blank p positive (sd r) (sb r) (sc r) (counts r) (laid_out r h) (each r h).0
          (counts-length r h) (each r h).1

    sends-scan : (r : ℕ) → r < p → send_displs_of blank p (all_args r) ≡ exclusive_scan 0 (sc r)
    sends-scan r h =
        send_displs-scan blank p positive (sd r) (sb r) (sc r) (counts r) (laid_out r h)
          (each r h).0 (counts-length r h) (each r h).1

    legal : IsLegal p (λ r. call_of blank p (all_args r) (counts r))
    unfolding call_of
    legal = record {
      agree = λ r j h l. rw (exchanged r h) (
          get_or-tabulate_from 0 p _ j 0 l
          ∙ (let e : 0 + j ≡ j = omega arith in ap (λ i. get_or (sc i) r 0) e));
      sends = λ r j h l.
          rw (sends-scan r h)
            (omega (arith, exclusive_scan-block-le 0 (sc r) j (omega (arith, each r h)), each r h));
      fits = λ r j h l.
          rw (displs-scan r h, buffer-length r h)
            (omega
              (arith, exclusive_scan-block-le 0 (counts r) j (omega (arith, counts-length r h))));
      apart = λ r i j h k l.
          rw (displs-scan r h)
            (exclusive_scan-ascends 0 (counts r) i j k (omega (arith, counts-length r h)));
    }

    all_suffice : all_below p (λ r. buffers_suffice blank p (all_args r) (counts r)) ≡ true
    all_suffice = all_below-true p _ (λ r h.
        suffice blank p positive (sd r) (sb r) (sc r) (counts r) (laid_out r h) (each r h).0
          (counts-length r h) (each r h).1)

    -- The blocks that a rank receives fill its buffer.
    received-concat :
        (r : ℕ)
        → r < p
        → write_all
            (recv_displs_of blank p (all_args r) (counts r))
            (tabulate_from 0 p (λ j.
              slice (sb j) (get_or (send_displs_of blank p (all_args j)) r 0) (get_or (sc j) r 0)))
            (recv_buf_of blank p (all_args r) (counts r))
          ≡ concat (tabulate_from 0 p (message r))
    received-concat r h =
        ap
          (λ bs.
            write_all (recv_displs_of blank p (all_args r) (counts r)) bs
              (recv_buf_of blank p (all_args r) (counts r)))
          (tabulate_from-ext 0 p _ _ (λ j l.
            ap (λ ds. slice (sb j) (get_or ds r 0) (get_or (sc j) r 0))
              (sends-scan j (omega arith))))
        ∙ ap
            (λ ds.
              write_all ds (tabulate_from 0 p (message r))
                (recv_buf_of blank p (all_args r) (counts r)))
            (displs-scan r h ∙ ap (exclusive_scan 0) sizes)
        ∙ write_all-scan (tabulate_from 0 p (message r)) _
        ∙ ap (◌++◌ (concat (tabulate_from 0 p (message r)))) (
            drop-all (recv_buf_of blank p (all_args r) (counts r))
              (sum (lengths (tabulate_from 0 p (message r))))
              (omega (arith, buffer-length r h, ap sum sizes)))
        ∙ append-nil _
      where
        sizes : counts r ≡ lengths (tabulate_from 0 p (message r))
        sizes =
            exchanged r h
            ∙ tabulate_from-ext 0 p _ _ (λ j l. sym (message-length r j h (omega arith)))
            ∙ sym (lengths-tabulate_from 0 p (message r))

  -- `alltoallv` where the send displacements are, or will be, the prefix sums of the send counts: each
  -- rank gets its block of every send buffer, with the counts and displacements that belong to them.
  pub alltoallv-laid_out :
      (mpi : MpiAlltoall ℕ) (mpi_v : MpiAlltoallv A)
      → Exchanges mpi
      → Delivers mpi_v
      → (res : ℕ → Outcome A) × (alltoallv blank p mpi mpi_v all_args ≡ some res)
        × ((r : ℕ)
            → r < p
            → ((res r).recv_buf ≡ concat (tabulate_from 0 p (message r)))
              × ((res r).recv_counts ≡ received_counts r)
              × ((res r).recv_displs ≡ exclusive_scan 0 (received_counts r))
              × ((res r).send_displs ≡ exclusive_scan 0 (sc r)))
  unfolding alltoallv call_of outcome_of
  alltoallv-laid_out mpi mpi_v law law_v =
      let (counts, e, exchanged) = counts_exchanged mpi law in
      let (received, e_v, values) =
        law_v p (λ r. call_of blank p (all_args r) (counts r)) (legal counts exchanged) in
      (
        λ r. outcome_of blank p (all_args r) (counts r) (received r),
        rw (same, alike, e, all_suffice counts exchanged, e_v) refl,
        λ r h. (
          values r h ∙ received-concat counts exchanged r h,
          exchanged r h,
          displs-scan counts exchanged r h ∙ ap (exclusive_scan 0) (exchanged r h),
          sends-scan counts exchanged r h,
        ),
      )
    where
      same : same_on_all p (λ r. true) ≡ true
      same = same_on_all-const p (λ r. true) (λ r. refl)

module _ {ℓ} {A : Type ℓ} (blank : A) (p : ℕ) (positive : 0 < p) (sb : ℕ → List A) (sc : ℕ → List ℕ)
    (each : (r : ℕ) → r < p → (length (sc r) ≡ p) × (sum (sc r) ≤ length (sb r))) where
  -- In a communicator that is not empty, if every rank gives one send count for each rank and a
  -- send buffer of at least their sum, and leaves all else to the library, then `alltoallv`
  -- succeeds; each rank's receive buffer is the concatenation of its blocks of all the send
  -- buffers, in rank order, its receive counts are the lengths of these blocks, and its receive and
  -- send displacements are the prefix sums of the receive and send counts. MPI is assumed to
  -- exchange the counts and to deliver the blocks.
  pub alltoallv-concat :
      (mpi : MpiAlltoall ℕ) (mpi_v : MpiAlltoallv A)
      → Exchanges mpi
      → Delivers mpi_v
      → (res : ℕ → Outcome A) × (alltoallv blank p mpi mpi_v (λ r. with_defaults (sb r) (sc r))
          ≡ some res)
        × ((r : ℕ)
            → r < p
            → ((res r).recv_buf
                ≡ concat (
                    tabulate_from 0 p (λ j.
                      slice (sb j) (get_or (exclusive_scan 0 (sc j)) r 0) (get_or (sc j) r 0))))
              × ((res r).recv_counts ≡ tabulate_from 0 p (λ j. get_or (sc j) r 0))
              × ((res r).recv_displs
                  ≡ exclusive_scan 0 (tabulate_from 0 p (λ j. get_or (sc j) r 0)))
              × ((res r).send_displs ≡ exclusive_scan 0 (sc r)))
  alltoallv-concat =
      alltoallv-laid_out blank p positive (λ r. out resize_to_fit []) sb sc fresh
        (same_on_all-const p (λ r. true) (λ r. refl)) each
    where
      fresh : (r : ℕ) → r < p → IsLaidOut p (out resize_to_fit []) (sc r)
      fresh r l = record {
        scan =
            filled-resized p [] (exclusive_scan 0 (sc r))
              (omega (arith, length-exclusive_scan 0 (sc r), each r l));
        room = omega (arith, length-sized p []);
      }
