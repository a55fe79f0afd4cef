-- ===== src/Collectives/Allgather/Delivery.antt =====
-- `allgather` of blocks of one size, with the counts left to the library.
use mping.Prelude.{
  ℕ, ◌*◌, ◌<◌, ◌≡◌, ap, sym, ◌∙◌, ◌⊎◌, inl, inr, true, ◌||◌, List, length, ◌==◌, ==_refl, take,
  take-all, none, some, arith,
}
use mping.Blocks.{write_at, concat, tabulate_from}
use mping.Blocks.Scan.{length-resize, length-concat-uniform, tabulate_from-ext}
use mping.Collectives.{no_resize, resize_to_fit, resize_if_requested}
use mping.Collectives.Buffers.{write_at-whole, all_below-true}
use mping.Collectives.Allgather.{
  Args, MpiAllgather, Gathers, send_count_of, recv_count_of, recv_buf_of, buffer_suffices, call_of,
  allgather,
}

-- A block of `n` elements, both counts left to the library, and a receive buffer that has the right size
-- or gets it.
pub record IsUniform {ℓ} {A : Type ℓ} (n p : ℕ) (a : Args A) : Type ℓ where
  pub no_send_count : a.send_count ≡ none
  pub no_recv_count : a.recv_count ≡ none
  pub block : length a.send_buf ≡ n
  pub sized :
      (a.recv_policy ≡ resize_to_fit) ⊎ ((a.recv_policy ≡ no_resize) × (length a.recv_buf ≡ n * p))

module _ {ℓ} {A : Type ℓ} (blank : A) (p n : ℕ) (a : Args A) (u : IsUniform n p a) where
  send_count-block : send_count_of blank p a ≡ n
  unfolding send_count_of
  send_count-block = rw u.no_send_count u.block

  recv_count-block : recv_count_of blank p a ≡ n
  unfolding recv_count_of send_count_of
  recv_count-block = rw u.no_recv_count send_count-block

  length-recv_buf : length (recv_buf_of blank p a) ≡ n * p
  unfolding recv_buf_of
  length-recv_buf = rw recv_count-block (elim u.sized [
    | inl e ↦ rw (e, resize_if_requested) (length-resize blank (n * p) a.recv_buf)
    | inr (e, l) ↦ rw (e, resize_if_requested) l
  ])

  suffices : buffer_suffices blank p a ≡ true
  suffices = unfold buffer_suffices in rw recv_count-block (ground (arith, length-recv_buf))

module _ {ℓ} {A : Type ℓ} (blank : A) (p n : ℕ) (mpi : MpiAllgather A) (args : ℕ → Args A)
    (each : (r : ℕ) → r < p → IsUniform n p (args r)) where
  abbrev blocks : List (List A)
  blocks = tabulate_from 0 p (λ j. (args j).send_buf)

  same_sizes :
      0 < p
      → (r : ℕ) → r < p
      → ((args r).send_type_given || (length (args r).send_buf == length (args 0).send_buf)) ≡ true
  same_sizes positive r l = rw ((each r l).block, (each 0 positive).block, ==_refl n) (ground arith)

  whole :
      (r : ℕ)
      → r < p
      → write_at 0
          (concat (tabulate_from 0 p (λ j. take n (args j).send_buf)))
          (recv_buf_of blank p (args r))
        ≡ concat blocks
  whole r l =
      ap (λ bs. write_at 0 (concat bs) (recv_buf_of blank p (args r)))
        (tabulate_from-ext 0 p (λ j. take n (args j).send_buf) (λ j. (args j).send_buf)
          (λ j h. take-all (args j).send_buf n (omega (arith, (each j (omega arith)).block))))
      ∙ write_at-whole (concat blocks) (recv_buf_of blank p (args r)) (
          length-recv_buf blank p n (args r) (each r l)
          ∙ sym (
              length-concat-uniform n 0 p (λ j. (args j).send_buf)
                (λ j h. (each j (omega arith)).block)))

  pub allgather-concat :
      0 < p
      → Gathers mpi
      → (received : ℕ → List A) × (allgather blank p mpi args ≡ some received)
        × ((r : ℕ) → r < p → received r ≡ concat blocks)
  unfolding allgather call_of
  allgather-concat positive law =
      let (received, e, values) =
        law p n (λ r. call_of blank p (args r))
          (λ r l. (
            (send_count-block blank p n (args r) (each r l), omega (arith, (each r l).block)),
            recv_count-block blank p n (args r) (each r l),
            omega (arith, length-recv_buf blank p n (args r) (each r l)),
          )) in
      (
        received,
        rw
            (
              all_below-true p
                  (λ r.
                    (args r).send_type_given
                    || (length (args r).send_buf == length (args 0).send_buf))
                  (same_sizes positive),
              all_below-true p (λ r. buffer_suffices blank p (args r))
                  (λ r l. suffices blank p n (args r) (each r l)),
            )
            e,
        λ r l. values r l ∙ whole r l,
      )
