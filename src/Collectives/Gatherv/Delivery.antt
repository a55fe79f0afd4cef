-- ===== src/Collectives/Gatherv/Delivery.antt =====
-- `gatherv` with the default parameters: only the send buffers and the root are given.
use mathlib.Core.List.{append-nil}
use mping.Prelude.{
  ℕ_discrete, subst, ℕ, ◌+◌, ◌<◌, ◌≤◌, ◌≡◌, ◌≢◌, refl, ap, ap₂, sym, ◌∙◌, true, false, List, [],
  ◌++◌, length, take, take-all, drop-all, ◌==◌, ==_refl, get_or, sum, exclusive_scan,
  length-exclusive_scan, exclusive_scan-block-le, exclusive_scan-ascends, none, some, arith,
}
use mping.Blocks.{resize, write_all, concat, lengths, tabulate_from}
use mping.Blocks.Scan.{
  write_all-scan, length-resize, length-tabulate_from, get_or-tabulate_from, tabulate_from-ext,
  lengths-tabulate_from,
}
use mping.Collectives.{resize_to_fit, out, all_below, compute_required_recv_buf_size}
use mping.Collectives.Buffers.{write_at-whole, all_below-true, same_on_all-const}
use mping.Collectives.RequiredSize.{required_size-agree}
use mping.Collectives.Gather
use mping.Collectives.Gather.{MpiGather}
use mping.Collectives.Gather.Delivery.{gather-single}
use mping.Collectives.Gatherv.{
  counts_out, Args, MpiGatherv, Gathers, Outcome, counts_buffer, displs_of, send_count_of,
  count_args, exchange_counts, required_recv_buf_size, recv_buf_of, root_accepted, buffers_suffice,
  call_of, outcome_of, gatherv,
}

abbrev pub default_args {ℓ} : {A : Type ℓ} → ℕ → List A → Args A
default_args root send_buf = record {
  send_buf = send_buf;
  send_count = none;
  recv_counts = counts_out resize_to_fit [];
  recv_displs = out resize_to_fit [];
  recv_buf = [];
  recv_policy = resize_to_fit;
  recv_type_given = false;
  root = root;
}

module _ {ℓ} {A : Type ℓ} (blank : A) (p root : ℕ) (root_in : root < p) (sb : ℕ → List A) where
  abbrev all_args : ℕ → Args A
  all_args r = default_args root (sb r)

  abbrev all_blocks : List (List A)
  all_blocks = tabulate_from 0 p sb

  abbrev all_counts : List ℕ
  all_counts = tabulate_from 0 p (λ r. length (sb r))

  counts_exchanged :
      (mpi : MpiGather ℕ)
      → Gather.Gathers mpi
      → (counts : ℕ → List ℕ) × (exchange_counts blank p mpi all_args ≡ some counts)
        × (counts root ≡ all_counts)
  unfolding exchange_counts count_args send_count_of
  counts_exchanged mpi law =
      let (counts, e, at_root, others) =
        gather-single 0 p root mpi (λ r. length (sb r))
          (λ r. counts_buffer p (r == root) (counts_out resize_to_fit [])) root_in
          (rw (==_refl root) (length-resize 0 p [])) law in
      (counts, e, at_root)

  counts-length : length all_counts ≡ p
  counts-length = length-tabulate_from 0 p (λ r. length (sb r))

  displs-scan : displs_of p true (out resize_to_fit []) all_counts ≡ exclusive_scan 0 all_counts
  displs-scan = rw (take-all all_counts p (omega (arith, counts-length))) (
      write_at-whole (exclusive_scan 0 all_counts) (resize 0 p []) (
        omega
          (arith, length-resize {A = ℕ} 0 p [], length-exclusive_scan 0 all_counts, counts-length)))

  required-sum : required_recv_buf_size blank p (all_args root) all_counts ≡ sum all_counts
  unfolding required_recv_buf_size
  required-sum = rw displs-scan (
      ap (λ n. compute_required_recv_buf_size true all_counts (exclusive_scan 0 all_counts) n)
        (sym counts-length)
      ∙ (required_size-agree all_counts (omega (arith, counts-length))).0)

  buffer-length : length (recv_buf_of blank p root (all_args root) all_counts) ≡ sum all_counts
  unfolding recv_buf_of
  buffer-length = rw (==_refl root) (
      length-resize blank (required_recv_buf_size blank p (all_args root) all_counts) []
      ∙ required-sum)

  accepted : all_below p (λ r. root_accepted blank p r (all_args r)) ≡ true
  accepted = all_below-true p (λ r. root_accepted blank p r (all_args r)) accepts
    where
      accepts : (r : ℕ) → r < p → root_accepted blank p r (all_args r) ≡ true
      accepts r h = unfold root_accepted in ground arith

  -- The rest of a call, once the root has the counts.
  module _ (counts : ℕ → List ℕ) (exchanged : counts root ≡ all_counts) where
    root_displs :
        displs_of p (root == root) (out resize_to_fit []) (counts root)
        ≡ exclusive_scan 0 all_counts
    root_displs =
        ap₂ (λ b cs. displs_of p b (out resize_to_fit []) cs) (==_refl root) exchanged ∙ displs-scan

    root_buffer : length (recv_buf_of blank p root (all_args root) (counts root)) ≡ sum all_counts
    root_buffer =
        ap (λ cs. length (recv_buf_of blank p root (all_args root) cs)) exchanged ∙ buffer-length

    suffice : all_below p (λ r. buffers_suffice blank p r (all_args r) (counts r)) ≡ true
    suffice =
        all_below-true p (λ r. buffers_suffice blank p r (all_args r) (counts r)) (λ r h. at_rank r)
      where
        at_root : buffers_suffice blank p root (all_args root) (counts root) ≡ true
        at_root =
            unfold buffers_suffice in
            ground (
              arith,
              ==_refl root,
              length-resize {A = ℕ} 0 p [],
              ap length exchanged,
              counts-length,
              root_buffer,
              required-sum,
              ap (required_recv_buf_size blank p (all_args root)) exchanged,
            )

        at_rank : (r : ℕ) → buffers_suffice blank p r (all_args r) (counts r) ≡ true
        at_rank r = elim (ℕ_discrete r root) [
          | yes e ↦
              subst (λ x. buffers_suffice blank p x (all_args x) (counts x) ≡ true) (sym e) at_root
          | no n ↦ unfold buffers_suffice in ground arith
        ]

    block_count : (r : ℕ) → r < p → length (sb r) ≡ get_or (counts root) r 0
    block_count r h = sym (
        ap (λ cs. get_or cs r 0) exchanged
        ∙ get_or-tabulate_from 0 p (λ j. length (sb j)) r 0 h
        ∙ (let e : 0 + r ≡ r = omega arith in ap (λ j. length (sb j)) e))

    root_counts : (r : ℕ) → get_or (counts root) r 0 ≡ get_or all_counts r 0
    root_counts r = ap (λ cs. get_or cs r 0) exchanged

    fits :
        (r : ℕ)
        → r < p
        → get_or (displs_of p (root == root) (out resize_to_fit []) (counts root)) r 0
            + get_or (counts root) r 0
          ≤ length (recv_buf_of blank p root (all_args root) (counts root))
    fits r h = omega (
      arith,
      ap (λ ds. get_or ds r 0) root_displs,
      root_counts r,
      root_buffer,
      exclusive_scan-block-le 0 all_counts r (omega (arith, counts-length)),
    )

    apart :
        (i j : ℕ)
        → i < j
        → j < p
        → get_or (displs_of p (root == root) (out resize_to_fit []) (counts root)) i 0
            + get_or (counts root) i 0
          ≤ get_or (displs_of p (root == root) (out resize_to_fit []) (counts root)) j 0
    apart i j l h = omega (
      arith,
      ap (λ ds. get_or ds i 0) root_displs,
      ap (λ ds. get_or ds j 0) root_displs,
      root_counts i,
      exclusive_scan-ascends 0 all_counts i j l (omega (arith, counts-length)),
    )

    -- The blocks fill the root's buffer.
    received-concat :
        write_all
          (take p (displs_of p (root == root) (out resize_to_fit []) (counts root)))
          (tabulate_from 0 p (λ j. take (length (sb j)) (sb j)))
          (recv_buf_of blank p root (all_args root) (counts root))
        ≡ concat all_blocks
    received-concat =
        ap₂ (λ ds bs. write_all ds bs (recv_buf_of blank p root (all_args root) (counts root)))
          (ap (take p) root_displs
            ∙ take-all (exclusive_scan 0 all_counts) p
                (omega (arith, length-exclusive_scan 0 all_counts, counts-length))
            ∙ ap (exclusive_scan 0) sizes)
          (tabulate_from-ext 0 p (λ j. take (length (sb j)) (sb j)) sb
            (λ j l. take-all (sb j) (length (sb j)) (omega arith)))
        ∙ write_all-scan all_blocks (recv_buf_of blank p root (all_args root) (counts root))
        ∙ ap (◌++◌ (concat all_blocks)) (
            drop-all (recv_buf_of blank p root (all_args root) (counts root))
              (sum (lengths all_blocks)) (omega (arith, root_buffer, ap sum sizes)))
        ∙ append-nil (concat all_blocks)
      where
        sizes : all_counts ≡ lengths all_blocks
        sizes = sym (lengths-tabulate_from 0 p sb)

    other_buffer : (r : ℕ) → r ≢ root → recv_buf_of blank p r (all_args r) (counts r) ≡ []
    unfolding recv_buf_of
    other_buffer r n = let e : (r == root) ≡ false = ground arith in rw e refl

  same_root : all_below p (λ r. root == root) ≡ true
  same_root = all_below-true p (λ r. root == root) (λ r h. ==_refl root)

  -- For a root that is a rank of the communicator and any send buffers, with all else left to the
  -- library, `gatherv` succeeds; the root's receive buffer is the concatenation of the send buffers
  -- in rank order, its counts are their lengths and its displacements the prefix sums of these, and
  -- the receive buffers of the other ranks stay empty. MPI is assumed to gather the counts and the
  -- blocks.
  pub gatherv-concat :
      (mpi : MpiGather ℕ) (mpi_v : MpiGatherv A)
      → Gather.Gathers mpi
      → Gathers mpi_v
      → (res : ℕ → Outcome A) × (gatherv blank p mpi mpi_v all_args ≡ some res)
        × ((res root).recv_buf ≡ concat all_blocks)
        × ((res root).recv_counts ≡ all_counts)
        × ((res root).recv_displs ≡ exclusive_scan 0 all_counts)
        × ((r : ℕ) → r ≢ root → (res r).recv_buf ≡ [])
  unfolding gatherv call_of outcome_of send_count_of
  gatherv-concat mpi mpi_v law law_v =
      let (counts, e, exchanged) = counts_exchanged mpi law in
      let (received, e_v, at_root, others) =
        law_v p root (λ r. call_of blank p r (all_args r) (counts r)) root_in
          (λ r h. (block_count counts exchanged r h, omega arith, fits counts exchanged r h))
          (apart counts exchanged) in
      (
        λ r. outcome_of blank p r (all_args r) (counts r) (received r),
        rw
            (
              accepted,
              same_root,
              same_on_all-const p (λ r. true) (λ r. refl),
              e,
              suffice counts exchanged,
              e_v,
            )
            refl,
        at_root ∙ received-concat counts exchanged,
        exchanged,
        root_displs counts exchanged,
        λ r n. others r n ∙ other_buffer counts exchanged r n,
      )
