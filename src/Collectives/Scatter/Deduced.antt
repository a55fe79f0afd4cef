-- ===== src/Collectives/Scatter/Deduced.antt =====
-- `scatter` where only the root gives anything, its buffer.
use native.Mathlib.Nat.{mul-div_left, mul-mod_left}
use mping.Prelude.{
  ℕ, ◌*◌, ◌%◌, ◌<◌, ◌≡◌, refl, ap, sym, ◌∙◌, Bool, true, false, List, [], length, ◌==◌, ==_refl,
  Option, none, some, if◌then◌else◌, Bool-cases, inl, inr, arith,
}
use mping.Blocks.{slice, write_at}
use mping.Blocks.Scan.{length-resize, length-slice}
use mping.Collectives.{resize_to_fit}
use mping.Collectives.Buffers.{write_at-whole, all_below-true}
use mping.Collectives.Bcast.{MpiBcast, Broadcasts, buffer_or_new}
use mping.Collectives.Bcast.Single.{bcast_single-copies}
use mping.Collectives.Scatter.{
  Args, MpiScatter, Scatters, send_count_of, send_accepted, count_args, recv_counts, recv_buf_of,
  scatter,
}
use mping.Collectives.Scatter.Delivery.{scatter-run}

abbrev pub sharing {ℓ} : {A : Type ℓ} → ℕ → List A → ℕ → Args A
sharing root buffer r = record {
  send_buf = if r == root then some buffer else none;
  send_count = none;
  recv_count = none;
  recv_buf = [];
  recv_policy = resize_to_fit;
  recv_type_given = false;
  root = root;
}

module _ {ℓ} {A : Type ℓ} (blank : A) (p root n : ℕ) (root_in : root < p) (buffer : List A)
    (even : length buffer ≡ n * p) where
  abbrev all_args : ℕ → Args A
  all_args = sharing root buffer

  sent : send_count_of blank p root (all_args root) ≡ n
  unfolding send_count_of
  sent = rw (==_refl root, even) (mul-div_left n (omega arith))

  divides : length buffer % p ≡ 0
  divides = rw even (mul-mod_left n p)

  accepts : (r : ℕ) → r < p → send_accepted blank p r (all_args r) ≡ true
  unfolding send_accepted
  accepts r l = elim (Bool-cases (r == root)) [
    | inl y ↦ rw y (ground (arith, divides, root_in))
    | inr m ↦ rw m (ground (arith, root_in))
  ]

  counts_received :
      (mpi_flag : MpiBcast Bool) (mpi_count : MpiBcast (Option ℕ)) (mpi_bcast : MpiBcast ℕ)
      → Broadcasts mpi_flag
      → Broadcasts mpi_bcast
      → (counts : ℕ → ℕ) × (recv_counts blank p mpi_flag mpi_count mpi_bcast all_args ≡ some counts)
        × ((r : ℕ) → r < p → counts r ≡ n)
  unfolding recv_counts count_args
  counts_received mpi_flag mpi_count mpi_bcast flag_law law =
      let (res, e, all) =
        bcast_single-copies 0 p root root_in (λ r. some (send_count_of blank p r (all_args r)))
          mpi_flag mpi_count mpi_bcast flag_law law (send_count_of blank p root (all_args root))
          refl in
      (res, e, λ r l. all r l ∙ sent)

  room : (r : ℕ) → length (recv_buf_of blank p (all_args r) n) ≡ n
  room r = unfold recv_buf_of in length-resize blank n []

  -- If only the root, which is a rank of the communicator, gives anything, a buffer whose data
  -- pointer is not null and whose size is a multiple of the number of ranks, `scatter` succeeds:
  -- the ranks learn the size of a block by a broadcast, and each has the block of its rank. MPI is
  -- assumed to broadcast and to scatter.
  pub scatter-slices :
      (mpi_flag : MpiBcast Bool) (mpi_count : MpiBcast (Option ℕ)) (mpi_bcast : MpiBcast ℕ)
      (mpi : MpiScatter A)
      → Broadcasts mpi_flag
      → Broadcasts mpi_bcast
      → Scatters mpi
      → (received : ℕ → List A) × (scatter blank p mpi_flag mpi_count mpi_bcast mpi all_args
          ≡ some received)
        × ((r : ℕ) → r < p → received r ≡ slice buffer (r * n) n)
  scatter-slices mpi_flag mpi_count mpi_bcast mpi flag_law bcast_law law =
      let (counts, known, at_count) =
        counts_received mpi_flag mpi_count mpi_bcast flag_law bcast_law in
      let root_buffer : buffer_or_new (all_args root).send_buf ≡ buffer = rw (==_refl root) refl in
      let (received, e, all) =
        scatter-run blank p root n root_in all_args (λ r l. refl) accepts
          (all_below-true p (λ r. true) (λ r l. refl)) sent
          (omega (arith, ap length root_buffer, even)) (λ r l. omega (arith, room r)) mpi_flag
          mpi_count mpi_bcast mpi law counts known at_count in
      (
        received,
        e,
        λ r l.
            all r l
            ∙ ap (λ b. write_at 0 (slice b (r * n) n) (recv_buf_of blank p (all_args r) n))
                root_buffer
            ∙ write_at-whole (slice buffer (r * n) n) (recv_buf_of blank p (all_args r) n)
                (room r ∙ sym (length-slice buffer (r * n) n (grind (arith, even, l)))),
      )
