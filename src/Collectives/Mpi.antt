-- ===== src/Collectives/Mpi.antt =====
-- An MPI library that delivers in one step, to run the operations and to meet the hypotheses on MPI.
use mping.Collectives.Bcast.{MpiBcast, Broadcasts}
use mping.Collectives.Scatter
use mping.Collectives.Scatter.{MpiScatter}
use mping.Collectives.Scatterv
use mping.Collectives.Scatterv.{MpiScatterv}
use mping.Collectives.Allgather
use mping.Collectives.Allgather.{MpiAllgather, block_of}
use mping.Collectives.Allgatherv
use mping.Collectives.Allgatherv.{MpiAllgatherv}
use mping.Collectives.Exscan.{MpiExscan, Scans, prefix, contributed}
use mping.Collectives.Gather
use mping.Collectives.Gather.{MpiGather}
use mping.Collectives.Gatherv
use mping.Collectives.Gatherv.{MpiGatherv}
use mping.Prelude.{
  suc, ◌-◌, false, arith, take, ◌==◌, ==_refl, if◌then◌else◌, ◌*◌, ◌≡◌, refl, ap, get_or, some,
}
use mping.Blocks.{slice, write_at, write_all, concat, tabulate_from}
use mping.Collectives.Alltoall.{MpiAlltoall, Exchanges}
use mping.Collectives.Alltoallv.{MpiAlltoallv}
use mping.Collectives.Alltoallv.Calls.{Delivers}

module _ {ℓ} {A : Type ℓ} where
  abbrev pub alltoall_now : MpiAlltoall A
  alltoall_now p calls = some (λ r.
      write_at 0
        (concat (
          tabulate_from 0 p
            (λ j. slice (calls j).send_buf (r * (calls r).send_count) (calls r).send_count)))
        (calls r).recv_buf)

  pub alltoall_now-Exchanges : Exchanges alltoall_now
  alltoall_now-Exchanges p n calls h = (
    _,
    refl,
    λ r l.
        ap
          (λ m.
            write_at 0 (concat (tabulate_from 0 p (λ j. slice (calls j).send_buf (r * m) m)))
              (calls r).recv_buf)
          (h r l).0,
  )

  abbrev pub alltoallv_now : MpiAlltoallv A
  alltoallv_now p calls = some (λ r.
      write_all (calls r).recv_displs
        (tabulate_from 0 p (λ j.
          slice (calls j).send_buf (get_or (calls j).send_displs r 0)
            (get_or (calls j).send_counts r 0)))
        (calls r).recv_buf)

  pub alltoallv_now-Delivers : Delivers alltoallv_now
  alltoallv_now-Delivers p calls h = (_, refl, λ r l. refl)

  abbrev pub gather_now : MpiGather A
  gather_now p root calls = some (λ r.
      if r == root
      then write_at 0
          (concat (tabulate_from 0 p (λ j. take (calls root).recv_count (calls j).send_buf)))
          (calls root).recv_buf
      else (calls r).recv_buf)

  pub gather_now-Gathers : Gather.Gathers gather_now
  gather_now-Gathers p root n calls root_in count room sends = (
    _,
    refl,
    rw (==_refl root) (
        ap
          (λ m.
            write_at 0 (concat (tabulate_from 0 p (λ j. take m (calls j).send_buf)))
              (calls root).recv_buf)
          count),
    λ r other. let e : (r == root) ≡ false = ground arith in rw e refl,
  )

  abbrev pub gatherv_now : MpiGatherv A
  gatherv_now p root calls = some (λ r.
      if r == root
      then write_all (take p (calls root).recv_displs)
          (tabulate_from 0 p (λ j. take (calls j).send_count (calls j).send_buf))
          (calls root).recv_buf
      else (calls r).recv_buf)

  pub gatherv_now-Gathers : Gatherv.Gathers gatherv_now
  gatherv_now-Gathers p root calls root_in fits apart = (
    _,
    refl,
    rw (==_refl root) refl,
    λ r other. let e : (r == root) ≡ false = ground arith in rw e refl,
  )

  abbrev pub bcast_now : MpiBcast A
  bcast_now p root calls =
      some (λ r. write_at 0 (take (calls r).count (calls root).buffer) (calls r).buffer)

  pub bcast_now-Broadcasts : Broadcasts bcast_now
  bcast_now-Broadcasts p root n calls root_in each = (
    _,
    refl,
    λ r l. ap (λ m. write_at 0 (take m (calls root).buffer) (calls r).buffer) (each r l).0,
  )

  abbrev pub scatter_now : MpiScatter A
  scatter_now p root calls = some (λ r.
      write_at 0 (slice (calls root).send_buf (r * (calls root).send_count) (calls root).send_count)
        (calls r).recv_buf)

  pub scatter_now-Scatters : Scatter.Scatters scatter_now
  scatter_now-Scatters p root n calls root_in count room each = (
    _,
    refl,
    λ r l. ap (λ m. write_at 0 (slice (calls root).send_buf (r * m) m) (calls r).recv_buf) count,
  )

  abbrev pub scatterv_now : MpiScatterv A
  scatterv_now p root calls = some (λ r.
      write_at 0
        (slice (calls root).send_buf (get_or (calls root).send_displs r 0)
          (get_or (calls root).send_counts r 0))
        (calls r).recv_buf)

  pub scatterv_now-Scatters : Scatterv.Scatters scatterv_now
  scatterv_now-Scatters p root calls root_in each = (_, refl, λ r l. refl)

  abbrev pub allgather_now : MpiAllgather A
  allgather_now p calls = some (λ r.
      write_at 0
        (concat (
          tabulate_from 0 p
            (λ j. block_of j (calls r).recv_count (calls j).sent (calls j).recv_buf)))
        (calls r).recv_buf)

  pub allgather_now-Gathers : Allgather.Gathers allgather_now
  allgather_now-Gathers p n calls each = (
    _,
    refl,
    λ r l.
        ap
          (λ m.
            write_at 0
              (concat (tabulate_from 0 p (λ j. block_of j m (calls j).sent (calls j).recv_buf)))
              (calls r).recv_buf)
          (each r l).1,
  )

  abbrev pub allgatherv_now : MpiAllgatherv A
  allgatherv_now p calls = some (λ r.
      write_all (calls r).recv_displs
        (tabulate_from 0 p (λ j. take (calls j).send_count (calls j).send_buf)) (calls r).recv_buf)

  pub allgatherv_now-Gathers : Allgatherv.Gathers allgatherv_now
  allgatherv_now-Gathers p calls legal = (_, refl, λ r l. refl)

  abbrev pub exscan_now : MpiExscan A
  exscan_now op p calls = some (λ r.
      if r == 0
      then (calls 0).recv_buf
      else write_at 0 (prefix op (λ j. contributed (calls j)) (r - 1)) (calls r).recv_buf)

  pub exscan_now-Scans : Scans exscan_now
  exscan_now-Scans op p n calls assoc each = (
    _,
    refl,
    refl,
    λ r l.
        let later : (suc r == 0) ≡ false = ground arith in
        let before : suc r - 1 ≡ r = omega arith in rw (later, before) refl,
  )
