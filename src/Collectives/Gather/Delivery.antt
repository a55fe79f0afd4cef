-- ===== src/Collectives/Gather/Delivery.antt =====
-- `gather` of one element from each rank, into a buffer of the root that has the size of the
-- communicator: the call by which `gatherv` learns the counts.
use mping.Prelude.{
  ℕ, ◌<◌, ◌≡◌, ◌≢◌, refl, ap, ap₂, ◌∙◌, true, false, List, [], ◌∷◌, length, ◌==◌, ==_refl, some,
  ◌>>=◌, ◌>>◌, arith,
}
use mping.Blocks.{write_at, tabulate_from}
use mping.Blocks.Scan.{concat-singletons, length-tabulate_from}
use mping.Collectives.{no_resize, all_below}
use mping.Collectives.Buffers.{write_at-whole, all_below-true}
use mping.Collectives.Gather.{
  Args, MpiGather, Gathers, send_count_of, recv_count_of, recv_buf_of, buffers_suffice, call_of,
  gather,
}

module _ {ℓ} {A : Type ℓ} (blank : A) (p root : ℕ) (mpi : MpiGather A) (values : ℕ → A)
    (bufs : ℕ → List A) where
  abbrev pub single : ℕ → Args A
  single r = record {
    send_buf = values r ∷ [];
    send_count = some 1;
    recv_count = some 1;
    recv_buf = bufs r;
    recv_policy = no_resize;
    recv_type_given = false;
    root = root;
  }

  buffer_kept : (r : ℕ) → recv_buf_of blank p r (single r) ≡ bufs r
  unfolding recv_buf_of
  buffer_kept r = ground arith

  pub gather-single :
      root < p
      → length (bufs root) ≡ p
      → Gathers mpi
      → (received : ℕ → List A) × (gather blank p mpi single ≡ some received)
        × (received root ≡ tabulate_from 0 p values)
        × ((r : ℕ) → r ≢ root → received r ≡ bufs r)
  unfolding gather call_of send_count_of recv_count_of
  gather-single root_in size law =
      let (received, e, at_root, others) =
        law p root 1 (λ r. call_of blank p r (single r)) root_in refl
          (omega (arith, ap length (buffer_kept root))) (λ r h. (refl, omega arith)) in
      (
        received,
        rw (same, checks, ◌>>◌, ◌>>=◌) e,
        at_root
            ∙ ap₂ (write_at 0) (concat-singletons 0 p values) (buffer_kept root)
            ∙ write_at-whole _ _ (omega (arith, length-tabulate_from 0 p values)),
        λ r ne. others r ne ∙ buffer_kept r,
      )
    where
      same : all_below p (λ r. root == root) ≡ true
      same = all_below-true p _ (λ r h. ==_refl root)

      check : (r : ℕ) → r < p → buffers_suffice blank p r (single r) ≡ true
      check r h = unfold buffers_suffice recv_buf_of recv_count_of in ground (arith)

      checks : all_below p (λ r. buffers_suffice blank p r (single r)) ≡ true
      checks = all_below-true p _ check
