-- ===== src/Collectives/Scatterv/Delivery.antt =====
-- `scatterv` of blocks that lie one after the other in the root's buffer.
use mathlib.Core.List.{append-nil}
use native.Mathlib.Nat.{div_self, mod_self}
use mping.Prelude.{
  ℕ, ◌+◌, ◌*◌, ◌/◌, ◌%◌, ◌<◌, ◌≤◌, ◌≡◌, refl, ap, ap₂, sym, ◌∙◌, Bool, true, List, [], ◌∷◌, ◌++◌,
  length, ◌==◌, ==_refl, take-all, get_or, exclusive_scan, length-exclusive_scan,
  exclusive_scan-block-le, Option, some, arith,
}
use mping.Blocks.{slice, write_at, resize, concat, lengths}
use mping.Blocks.Scan.{
  length-resize, length-concat, length-lengths, get_or-lengths, slice-one, slice-concat,
}
use mping.Collectives.{resize_to_fit, out, all_below}
use mping.Collectives.Buffers.{write_at-whole, all_below-true}
use mping.Collectives.Bcast.{MpiBcast, buffer_or_new}
use mping.Collectives.Scatter
use mping.Collectives.Scatter.{MpiScatter, scatter, send_count_of, recv_counts}
use mping.Collectives.Scatter.Delivery.{scatter-run}
use mping.Collectives.Scatterv.Accepted.{
  scattering, same_root, accepted, root_counts, inner_accepts, inner_counts,
}
use mping.Collectives.Scatterv.{
  Args, MpiScatterv, Scatters, Outcome, contents, send_displs_of, count_args, exchange_counts,
  recv_buf_of, buffer_suffices, call_of, scatterv,
}

module _ {ℓ} {A : Type ℓ} (blank : A) (p root : ℕ) (root_in : root < p) (blocks : List (List A))
    (one_each : length blocks ≡ p) where
  counts-length : length (lengths blocks) ≡ p
  counts-length = length-lengths blocks ∙ one_each

  enough : p ≤ length (lengths blocks)
  enough = omega (arith, counts-length)

  abbrev rank_args : ℕ → Args A
  rank_args = scattering root (concat blocks) (lengths blocks)

  counts_given : contents (rank_args root).send_counts ≡ lengths blocks
  counts_given = root_counts blank p root root_in (concat blocks) (lengths blocks) enough

  even : length (lengths blocks) % p ≡ 0
  even = rw counts-length (mod_self p)

  inner_args-count : (send_count_of 0 p root (count_args blank p (rank_args root)) ≡ 1)
  unfolding send_count_of count_args
  inner_args-count = rw (==_refl root) (ap (λ n. n / p) counts-length ∙ div_self (omega arith))

  -- Each rank learns the length of its block.
  counts_exchanged :
      (mpi_flag : MpiBcast Bool) (mpi_count : MpiBcast (Option ℕ)) (mpi_bcast : MpiBcast ℕ)
      (mpi : MpiScatter ℕ)
      → Scatter.Scatters mpi
      → (counts : ℕ → ℕ) × (exchange_counts blank p mpi_flag mpi_count mpi_bcast mpi rank_args
          ≡ some counts)
        × ((r : ℕ) → r < p → counts r ≡ get_or (lengths blocks) r 0)
  unfolding exchange_counts count_args Scatter.recv_buf_of
  counts_exchanged mpi_flag mpi_count mpi_bcast mpi law =
      let (received, e, all) =
        scatter-run 0 p root 1 root_in (λ r. count_args blank p (rank_args r)) (λ r l. refl)
          (inner_accepts blank p root root_in (concat blocks) (lengths blocks) enough even)
          (all_below-true p (λ r. true) (λ r l. refl)) inner_args-count
          (rw (==_refl root) (omega (arith, counts-length))) (λ r l. omega arith) mpi_flag mpi_count
          mpi_bcast mpi law (λ r. 1)
          (inner_counts blank p root root_in (concat blocks) (lengths blocks) enough mpi_flag
            mpi_count mpi_bcast)
          (λ r l. refl) in
      (
        λ r. get_or (received r) 0 0,
        rw e refl,
        λ r l.
            ap (λ b. get_or b 0 0) (all r l)
            ∙ ap (λ cs. get_or (write_at 0 (slice cs (r * 1) 1) (0 ∷ [])) 0 0) counts_given
            ∙ ap (λ b. get_or (write_at 0 b (0 ∷ [])) 0 0)
                (slice-one (lengths blocks) (r * 1) 0 (omega (arith, counts-length)))
            ∙ (let e' : r * 1 ≡ r = omega arith in ap (λ i. get_or (lengths blocks) i 0) e'),
      )

  abbrev block_length : ℕ → ℕ
  block_length r = get_or (lengths blocks) r 0

  room : (r : ℕ) → length (recv_buf_of blank p (rank_args r) (block_length r)) ≡ block_length r
  room r = unfold recv_buf_of in length-resize blank (block_length r) []

  suffices : (r : ℕ) → buffer_suffices blank p (rank_args r) (block_length r) ≡ true
  suffices r = unfold buffer_suffices in ground (arith, room r)

  root_displs :
      send_displs_of blank p
        (root == root)
        (out resize_to_fit [])
        (contents (rank_args root).send_counts)
      ≡ exclusive_scan 0 (lengths blocks)
  root_displs =
      ap₂ (λ rooted cs. send_displs_of blank p rooted (out resize_to_fit []) cs) (==_refl root)
        counts_given
      ∙ ap (λ cs. write_at 0 (exclusive_scan 0 cs) (resize 0 p []))
          (take-all (lengths blocks) p (omega (arith, counts-length)))
      ∙ write_at-whole (exclusive_scan 0 (lengths blocks)) (resize 0 p []) (
          omega (
            arith,
            length-resize {A = ℕ} 0 p [],
            length-exclusive_scan 0 (lengths blocks),
            counts-length,
          ))

  root_buffer : buffer_or_new (rank_args root).send_buf ≡ concat blocks
  root_buffer = rw (==_refl root) refl

  -- What the root hands over for rank `r` is its block.
  block_sent :
      (r : ℕ)
      → r < p
      → slice
          (buffer_or_new (rank_args root).send_buf)
          (get_or
            (send_displs_of blank p
              (root == root)
              (out resize_to_fit [])
              (contents (rank_args root).send_counts))
            r
            0)
          (get_or (contents (rank_args root).send_counts) r 0)
        ≡ get_or blocks r []
  block_sent r l =
      ap₂ (λ b ds. slice b (get_or ds r 0) (get_or (contents (rank_args root).send_counts) r 0))
        (root_buffer ∙ sym (append-nil (concat blocks))) root_displs
      ∙ ap
          (λ cs.
            slice (concat blocks ++ []) (get_or (exclusive_scan 0 (lengths blocks)) r 0)
              (get_or cs r 0))
          counts_given
      ∙ slice-concat blocks [] r (omega arith)

  block_received :
      (r : ℕ)
      → write_at 0 (get_or blocks r []) (recv_buf_of blank p (rank_args r) (block_length r))
        ≡ get_or blocks r []
  block_received r =
      write_at-whole (get_or blocks r []) (recv_buf_of blank p (rank_args r) (block_length r))
        (room r ∙ get_or-lengths blocks r)

  fits :
      (r : ℕ)
      → r < p
      → get_or
            (send_displs_of blank p
              (root == root)
              (out resize_to_fit [])
              (contents (rank_args root).send_counts))
            r
            0
          + get_or (contents (rank_args root).send_counts) r 0
        ≤ length (buffer_or_new (rank_args root).send_buf)
  fits r l = omega (
    arith,
    ap (λ ds. get_or ds r 0) root_displs,
    ap (λ cs. get_or cs r 0) counts_given,
    ap length root_buffer,
    length-concat blocks,
    exclusive_scan-block-le 0 (lengths blocks) r (omega (arith, counts-length)),
  )

  -- If a root that is a rank of the communicator gives one block for each rank, one behind the
  -- other in a buffer whose data pointer is not null, with their lengths as counts, and all else is
  -- left to the library, `scatterv` succeeds, and each rank has its own block and that block's
  -- length as the count. MPI is assumed to scatter the counts and the blocks.
  pub scatterv-blocks :
      (mpi_flag : MpiBcast Bool) (mpi_count : MpiBcast (Option ℕ)) (mpi_bcast : MpiBcast ℕ)
      (mpi_scatter : MpiScatter ℕ) (mpi : MpiScatterv A)
      → Scatter.Scatters mpi_scatter
      → Scatters mpi
      → (res : ℕ → Outcome A) × (scatterv blank p mpi_flag mpi_count mpi_bcast mpi_scatter mpi
            rank_args
          ≡ some res)
        × ((r : ℕ)
            → r < p
            → ((res r).recv_buf ≡ get_or blocks r [])
              × ((res r).recv_count ≡ length (get_or blocks r [])))
  unfolding scatterv call_of
  scatterv-blocks mpi_flag mpi_count mpi_bcast mpi_scatter mpi scatter_law law =
      let (counts, e, at_block) =
        counts_exchanged mpi_flag mpi_count mpi_bcast mpi_scatter scatter_law in
      let (received, e', all) =
        law p root (λ r. call_of blank p r (rank_args r) (counts r)) root_in
          (λ r l. (
            at_block r l ∙ sym (ap (λ cs. get_or cs r 0) counts_given),
            omega (
              arith,
              at_block r l,
              room r,
              ap (λ c. length (recv_buf_of blank p (rank_args r) c)) (at_block r l),
            ),
            fits r l,
          )) in
      let each_suffices : all_below p (λ r. buffer_suffices blank p (rank_args r) (counts r))
          ≡ true =
        all_below-true p (λ r. buffer_suffices blank p (rank_args r) (counts r))
          (λ r l. ap (buffer_suffices blank p (rank_args r)) (at_block r l) ∙ suffices r) in
      (
        λ r. record { recv_buf = received r; recv_count = counts r },
        rw
            (
              same_root blank p root root_in (concat blocks) (lengths blocks) enough,
              accepted blank p root root_in (concat blocks) (lengths blocks) enough,
              all_below-true p (λ r. true) (λ r l. refl),
              e,
              each_suffices,
              e',
            )
            refl,
        λ r l. (
          all r l
              ∙ ap₂ (λ b c. write_at 0 b (recv_buf_of blank p (rank_args r) c)) (block_sent r l)
                  (at_block r l)
              ∙ block_received r,
          at_block r l ∙ get_or-lengths blocks r,
        ),
      )
