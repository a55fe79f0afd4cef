-- ===== src/Collectives/Scatterv/Accepted.antt =====
-- The assertions of `scatterv` where the root gives its buffer and the counts, and the rest is left to
-- the library.
use mping.Prelude.{
  ℕ, ◌%◌, ◌<◌, ◌≤◌, ◌≡◌, ◌≢◌, refl, Bool, true, false, List, [], length, ◌==◌, ==_refl, Option,
  none, some, if◌then◌else◌, Bool-cases, inl, inr, arith,
}
use mping.Blocks.Scan.{length-resize}
use mping.Collectives.{resize_to_fit, given, out, all_below}
use mping.Collectives.Buffers.{all_below-true, all_below-false}
use mping.Collectives.Bcast.{MpiBcast}
use mping.Collectives.Scatter
use mping.Collectives.Scatter.{MpiScatter, scatter, send_count_of, recv_counts}
use mping.Collectives.Scatterv.{
  Args, MpiScatterv, contents, send_accepted, count_args, exchange_counts, scatterv,
}

-- What rank `r` passes: the root a buffer and the counts, the others only the root.
abbrev pub scattering {ℓ} : {A : Type ℓ} → ℕ → List A → List ℕ → ℕ → Args A
scattering root buffer counts r = record {
  send_buf = if r == root then some buffer else none;
  send_counts = if r == root then given counts else out resize_to_fit [];
  send_displs = out resize_to_fit [];
  recv_count = none;
  recv_buf = [];
  recv_policy = resize_to_fit;
  recv_type_given = false;
  root = root;
}

module _ {ℓ} {A : Type ℓ} (blank : A) (p root : ℕ) (root_in : root < p) (buffer : List A)
    (counts : List ℕ) (enough : p ≤ length counts) where
  abbrev pub all_args : ℕ → Args A
  all_args r = scattering root buffer counts r

  pub same_root : all_below p (λ r. root == root) ≡ true
  same_root = all_below-true p (λ r. root == root) (λ r h. ==_refl root)

  accepts : (r : ℕ) → r < p → send_accepted blank p r (all_args r) ≡ true
  unfolding send_accepted
  accepts r l = elim (Bool-cases (r == root)) [
    | inl y ↦ rw y (ground (arith, enough, root_in, length-resize {A = ℕ} 0 p []))
    | inr n ↦ rw n (ground (arith, root_in))
  ]

  pub accepted : all_below p (λ r. send_accepted blank p r (all_args r)) ≡ true
  accepted = all_below-true p (λ r. send_accepted blank p r (all_args r)) accepts

  pub root_counts : contents (all_args root).send_counts ≡ counts
  root_counts = rw (==_refl root) refl

  -- The assertion of the inner `scatter` on the root.
  pub inner_accepts :
      length counts % p ≡ 0
      → (r : ℕ) → r < p
      → Scatter.send_accepted 0 p r (count_args blank p (all_args r)) ≡ true
  unfolding Scatter.send_accepted count_args
  inner_accepts even r l = elim (Bool-cases (r == root)) [
    | inl y ↦ rw y (ground (arith, even, root_in))
    | inr n ↦ rw n (ground (arith, root_in))
  ]

  pub inner_counts :
      (mpi_flag : MpiBcast Bool) (mpi_count : MpiBcast (Option ℕ)) (mpi_bcast : MpiBcast ℕ)
      → recv_counts 0 p mpi_flag mpi_count mpi_bcast (λ r. count_args blank p (all_args r))
        ≡ some (λ r. 1)
  unfolding recv_counts count_args
  inner_counts mpi_flag mpi_count mpi_bcast = refl

  -- If the root gives at least one count for each rank but a number of counts that the number of
  -- ranks does not divide, then the assertions of `scatterv` on the send parameters hold on every
  -- rank, and yet the call fails, whatever MPI does, where the receive counts are left to the
  -- library.
  pub scatterv-refuses :
      length counts % p ≢ 0
      → (mpi_flag : MpiBcast Bool) (mpi_count : MpiBcast (Option ℕ)) (mpi_bcast : MpiBcast ℕ)
        (mpi_scatter : MpiScatter ℕ) (mpi : MpiScatterv A)
      → ((r : ℕ) → r < p → send_accepted blank p r (all_args r) ≡ true)
        × (scatterv blank p mpi_flag mpi_count mpi_bcast mpi_scatter mpi all_args ≡ none)
  unfolding scatterv exchange_counts scatter Scatter.send_accepted count_args
  scatterv-refuses odd mpi_flag mpi_count mpi_bcast mpi_scatter mpi =
      let refused : all_below p (λ r. Scatter.send_accepted 0 p r (count_args blank p (all_args r)))
          ≡ false =
        all_below-false p (λ r. Scatter.send_accepted 0 p r (count_args blank p (all_args r))) root
          root_in (rw (==_refl root) (ground (arith, odd))) in
      (accepts, rw (same_root, accepted, all_below-true p (λ r. true) (λ r l. refl), refused) refl)
