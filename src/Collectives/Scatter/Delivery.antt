-- ===== src/Collectives/Scatter/Delivery.antt =====
-- `scatter`: what the ranks receive, and how a rank learns its count.
use mping.Prelude.{
  ℕ, ◌*◌, ◌<◌, ◌≤◌, ◌≡◌, refl, ap, ap₂, ◌∙◌, Bool, true, List, length, ◌==◌, ==_refl, Option, some,
  arith,
}
use mping.Blocks.{slice, write_at}
use mping.Collectives.{all_below, same_on_all}
use mping.Collectives.Buffers.{all_below-true}
use mping.Collectives.Bcast.{MpiBcast, is_given, buffer_or_new}
use mping.Collectives.Scatter.{
  Args, MpiScatter, Scatters, send_count_of, send_accepted, recv_counts, recv_buf_of,
  buffer_suffices, call_of, scatter,
}

-- A call of `scatter` in which all ranks name one root and the same count.
module _ {ℓ} {A : Type ℓ} (blank : A) (p root n : ℕ) (root_in : root < p) (args : ℕ → Args A)
    (roots : (r : ℕ) → r < p → (args r).root ≡ root)
    (accepted : (r : ℕ) → r < p → send_accepted blank p r (args r) ≡ true)
    (same : same_on_all p (λ r. is_given (args r).recv_count) ≡ true)
    (sent : send_count_of blank p root (args root) ≡ n)
    (enough : n * p ≤ length (buffer_or_new (args root).send_buf))
    (room : (r : ℕ) → r < p → n ≤ length (recv_buf_of blank p (args r) n)) where
  first_root : (args 0).root ≡ root
  first_root = roots 0 (omega arith)

  same_roots : all_below p (λ r. (args r).root == (args 0).root) ≡ true
  same_roots =
      all_below-true p (λ r. (args r).root == (args 0).root)
        (λ r l. ap₂ ◌==◌ (roots r l) first_root ∙ ==_refl root)

  suffices : (r : ℕ) → r < p → buffer_suffices blank p (args r) n ≡ true
  suffices r l = unfold buffer_suffices in ground (arith, room r l)

  pub scatter-run :
      (mpi_flag : MpiBcast Bool) (mpi_count : MpiBcast (Option ℕ)) (mpi_bcast : MpiBcast ℕ)
      (mpi : MpiScatter A)
      → Scatters mpi
      → (counts : ℕ → ℕ) → recv_counts blank p mpi_flag mpi_count mpi_bcast args ≡ some counts
      → ((r : ℕ) → r < p → counts r ≡ n)
      → (received : ℕ → List A) × (scatter blank p mpi_flag mpi_count mpi_bcast mpi args
          ≡ some received)
        × ((r : ℕ)
            → r < p
            → received r
              ≡ write_at 0
                  (slice (buffer_or_new (args root).send_buf) (r * n) n)
                  (recv_buf_of blank p (args r) n))
  unfolding scatter call_of
  scatter-run mpi_flag mpi_count mpi_bcast mpi law counts known at_count =
      let (received, e, all) =
        law p root n (λ r. call_of blank p r (args r) (counts r)) root_in sent enough
          (λ r l. (
            at_count r l,
            omega
                (arith, room r l, ap (λ c. length (recv_buf_of blank p (args r) c)) (at_count r l)),
          )) in
      let each_suffices : all_below p (λ r. buffer_suffices blank p (args r) (counts r)) ≡ true =
        all_below-true p (λ r. buffer_suffices blank p (args r) (counts r))
          (λ r l. ap (buffer_suffices blank p (args r)) (at_count r l) ∙ suffices r l) in
      (
        received,
        rw
            (
              same_roots,
              all_below-true p (λ r. send_accepted blank p r (args r)) accepted,
              same,
              known,
              each_suffices,
              first_root,
              e,
            )
            refl,
        λ r l.
            all r l
            ∙ ap
                (λ c.
                  write_at 0 (slice (buffer_or_new (args root).send_buf) (r * n) n)
                    (recv_buf_of blank p (args r) c))
                (at_count r l),
      )
