-- ===== src/Collectives/RoundTrip.antt =====
-- `scatterv` of what `gatherv` collected.
use mping.Prelude.{Bool, ℕ, ◌+◌, ◌<◌, ◌≡◌, ap, ap₂, sym, ◌∙◌, List, [], get_or, Option, some, arith}
use mping.Blocks.{tabulate_from}
use mping.Blocks.Scan.{length-tabulate_from, get_or-tabulate_from, lengths-tabulate_from}
use mping.Collectives.Bcast.{MpiBcast}
use mping.Collectives.Gather
use mping.Collectives.Gather.{MpiGather}
use mping.Collectives.Gatherv
use mping.Collectives.Gatherv.{MpiGatherv, gatherv}
use mping.Collectives.Gatherv.Delivery.{default_args, gatherv-concat}
use mping.Collectives.Scatter
use mping.Collectives.Scatter.{MpiScatter}
use mping.Collectives.Scatterv
use mping.Collectives.Scatterv.{MpiScatterv, scatterv}
use mping.Collectives.Scatterv.Accepted.{scattering}
use mping.Collectives.Scatterv.Delivery.{scatterv-blocks}

module _ {ℓ} {A : Type ℓ} (blank : A) (p root : ℕ) (root_in : root < p) (sb : ℕ → List A) where
  abbrev blocks : List (List A)
  blocks = tabulate_from 0 p sb

  own_block : (r : ℕ) → r < p → get_or blocks r [] ≡ sb r
  own_block r l = get_or-tabulate_from 0 p sb r [] l ∙ (let e : 0 + r ≡ r = omega arith in ap sb e)

  -- What `gatherv` collects at a root from any send buffers, `scatterv` from that root's receive
  -- buffer and counts, the data pointer of the buffer not being null, gives back: both succeed and
  -- each rank has its send buffer again, when all else is left to the library and MPI gathers and
  -- scatters as documented.
  pub scatterv-gatherv :
      (mpi_gather : MpiGather ℕ) (mpi_gatherv : MpiGatherv A) (mpi_flag : MpiBcast Bool)
      (mpi_count : MpiBcast (Option ℕ)) (mpi_bcast : MpiBcast ℕ) (mpi_scatter : MpiScatter ℕ)
      (mpi_scatterv : MpiScatterv A)
      → Gather.Gathers mpi_gather
      → Gatherv.Gathers mpi_gatherv
      → Scatter.Scatters mpi_scatter
      → Scatterv.Scatters mpi_scatterv
      → (collected : ℕ → Gatherv.Outcome A) × (gatherv blank p mpi_gather mpi_gatherv
            (λ r. default_args root (sb r))
          ≡ some collected)
        × (res : ℕ → Scatterv.Outcome A) × (scatterv blank p mpi_flag mpi_count mpi_bcast
              mpi_scatter mpi_scatterv
              (scattering root (collected root).recv_buf (collected root).recv_counts)
            ≡ some res)
        × ((r : ℕ) → r < p → (res r).recv_buf ≡ sb r)
  scatterv-gatherv mpi_gather mpi_gatherv mpi_flag mpi_count mpi_bcast mpi_scatter mpi_scatterv g gv
        s sv =
      let (collected, e, whole, counts, displs, others) =
        gatherv-concat blank p root root_in sb mpi_gather mpi_gatherv g gv in
      let (res, e', all) =
        scatterv-blocks blank p root root_in blocks (length-tabulate_from 0 p sb) mpi_flag mpi_count
          mpi_bcast mpi_scatter mpi_scatterv s sv in
      (
        collected,
        e,
        res,
        ap₂
              (λ buffer cs.
                scatterv blank p mpi_flag mpi_count mpi_bcast mpi_scatter mpi_scatterv
                  (scattering root buffer cs))
              whole (counts ∙ sym (lengths-tabulate_from 0 p sb))
            ∙ e',
        λ r l. (all r l).0 ∙ own_block r l,
      )
