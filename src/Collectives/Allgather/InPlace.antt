-- ===== src/Collectives/Allgather/InPlace.antt =====
-- `allgather_inplace` with the count left to the library.
use native.Mathlib.Nat.{mul-mod_left, mul-div_cancel}
use mping.Prelude.{
  ℕ, ◌*◌, ◌<◌, ◌≡◌, ap, sym, ◌∙◌, true, ◌||◌, List, length, ◌==◌, ==_refl, none, some, arith,
}
use mping.Blocks.{slice, write_at, concat, tabulate_from}
use mping.Blocks.Scan.{length-slice, length-concat-uniform, tabulate_from-ext}
use mping.Collectives.Buffers.{write_at-whole, all_below-true, resize_if_requested-same}
use mping.Collectives.Allgather.{
  InPlaceArgs, MpiAllgather, Gathers, count_of, divisible, buffer_of, buffer_fits, inplace_call_of,
  allgather_inplace,
}

module _ {ℓ} {A : Type ℓ} (blank : A) (p n : ℕ) (positive : 0 < p) (a : InPlaceArgs A)
    (no_count : a.send_recv_count ≡ none) (size : length a.send_recv_buf ≡ n * p) where
  count-block : count_of blank p a ≡ n
  unfolding count_of
  count-block = rw (no_count, size) (mul-div_cancel n positive)

  buffer-same : buffer_of blank p a ≡ a.send_recv_buf
  unfolding buffer_of
  buffer-same =
      resize_if_requested-same a.policy blank (count_of blank p a * p) a.send_recv_buf
        (size ∙ ap (λ c. c * p) (sym count-block))

  divides : divisible blank p a ≡ true
  unfolding divisible
  divides = rw (size, mul-mod_left n p) (ground arith)

  fits : buffer_fits blank p a ≡ true
  unfolding buffer_fits
  fits = rw (count-block, buffer-same) (ground (arith, size))

module _ {ℓ} {A : Type ℓ} (blank : A) (p n : ℕ) (mpi : MpiAllgather A) (args : ℕ → InPlaceArgs A)
    (each : (r : ℕ)
      → r < p
      → ((args r).send_recv_count ≡ none) × (length (args r).send_recv_buf ≡ n * p))
    (positive : 0 < p) where
  unchanged : (r : ℕ) → r < p → buffer_of blank p (args r) ≡ (args r).send_recv_buf
  unchanged r l = buffer-same blank p n positive (args r) (each r l).0 (each r l).1

  abbrev own_block : ℕ → List A
  own_block j = slice (args j).send_recv_buf (j * n) n

  same_sizes :
      (r : ℕ)
      → r < p
      → ((args r).type_given || (length (args r).send_recv_buf == length (args 0).send_recv_buf))
        ≡ true
  same_sizes r l = rw ((each r l).1, (each 0 positive).1, ==_refl (n * p)) (ground arith)

  -- X.
  pub allgather_inplace-concat :
      Gathers mpi
      → (received : ℕ → List A) × (allgather_inplace blank p mpi args ≡ some received)
        × ((r : ℕ)
            → r < p
            → received r ≡ concat (tabulate_from 0 p (λ j. slice (args j).send_recv_buf (j * n) n)))
  unfolding allgather_inplace inplace_call_of
  allgather_inplace-concat law =
      let (received, e, values) =
        law p n (λ r. inplace_call_of blank p (args r))
          (λ r l. (
            tt,
            count-block blank p n positive (args r) (each r l).0 (each r l).1,
            omega (arith, ap length (unchanged r l), (each r l).1),
          )) in
      (
        received,
        rw
            (
              all_below-true p
                  (λ r.
                    (args r).type_given
                    || (length (args r).send_recv_buf == length (args 0).send_recv_buf))
                  same_sizes,
              all_below-true p (λ r. divisible blank p (args r))
                  (λ r l. divides blank p n positive (args r) (each r l).0 (each r l).1),
              all_below-true p (λ r. buffer_fits blank p (args r))
                  (λ r l. fits blank p n positive (args r) (each r l).0 (each r l).1),
            )
            e,
        λ r l.
            values r l
            ∙ ap (λ bs. write_at 0 (concat bs) (buffer_of blank p (args r)))
                (tabulate_from-ext 0 p (λ j. slice (buffer_of blank p (args j)) (j * n) n) own_block
                  (λ j h. ap (λ b. slice b (j * n) n) (unchanged j (omega arith))))
            ∙ write_at-whole (concat (tabulate_from 0 p own_block)) (buffer_of blank p (args r)) (
                ap length (unchanged r l)
                ∙ (each r l).1
                ∙ sym (
                    length-concat-uniform n 0 p own_block (λ j h.
                      length-slice (args j).send_recv_buf (j * n) n
                        (grind (arith, (each j (omega arith)).1))))),
      )
