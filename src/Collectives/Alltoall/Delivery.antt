-- ===== src/Collectives/Alltoall/Delivery.antt =====
-- `alltoall` with computed counts: every rank receives its block of every send buffer.
use native.Mathlib.Nat.{mul-mod_left, mul-div_cancel}
use mping.Prelude.{
  ℕ, ◌+◌, ◌*◌, ◌<◌, ◌≤◌, ◌≡◌, ap, sym, ◌∙◌, ◌⊎◌, inl, inr, true, List, length, none, some, ◌>>=◌,
  ◌>>◌, arith,
}
use mping.Blocks.{slice, write_at, concat, tabulate_from}
use mping.Blocks.Scan.{length-resize, length-slice, length-concat-uniform}
use mping.Collectives.{no_resize, resize_to_fit, resize_if_requested, all_below}
use mping.Collectives.Buffers.{write_at-whole, all_below-true}
use mping.Collectives.Alltoall.{
  Args, MpiAlltoall, Exchanges, option_or, is_given, send_count_of, recv_count_of, recv_buf_of,
  buffers_suffice, call_of, alltoall,
}

-- Arguments with a block of `n` elements for each of the `p` ranks, both counts left to the library, and
-- a receive buffer that has the right size or gets it.
pub record IsUniform {ℓ} {A : Type ℓ} (n p : ℕ) (a : Args A) : Type ℓ where
  pub no_send_count : a.send_count ≡ none
  pub no_recv_count : a.recv_count ≡ none
  pub blocks : length a.send_buf ≡ n * p
  pub sized :
      (a.recv_policy ≡ resize_to_fit) ⊎ ((a.recv_policy ≡ no_resize) × (length a.recv_buf ≡ n * p))

module _ {ℓ} {A : Type ℓ} (blank : A) (p n : ℕ) (positive : 0 < p) (some_elements : 0 < n)
    (a : Args A) (u : IsUniform n p a) where
  send_count-block : send_count_of blank p a ≡ n
  unfolding send_count_of option_or
  send_count-block = rw (u.no_send_count, u.blocks, option_or) (mul-div_cancel n positive)

  recv_count-block : recv_count_of blank p a ≡ n
  unfolding recv_count_of option_or
  recv_count-block =
      ap (λ o. option_or o (send_count_of blank p a)) u.no_recv_count ∙ send_count-block

  length-recv_buf : length (recv_buf_of blank p a) ≡ n * p
  unfolding recv_buf_of
  length-recv_buf = rw recv_count-block (elim u.sized [
    | inl e ↦ rw (e, resize_if_requested) (length-resize blank (n * p) a.recv_buf)
    | inr (e, l) ↦ rw (e, resize_if_requested) l
  ])

  has_elements : 1 ≤ n * p
  has_elements = grind arith

  suffice : buffers_suffice blank p a ≡ true
  unfolding buffers_suffice is_given
  suffice =
      rw (recv_count-block, length-recv_buf, u.blocks, mul-mod_left n p)
        (ground (arith, has_elements))

module _ {ℓ} {A : Type ℓ} (blank : A) (p n : ℕ) (mpi : MpiAlltoall A) (args : ℕ → Args A) where
  -- When every rank leaves the counts to the library and sends blocks of the same size, which is
  -- not 0, into a receive buffer that is resized to fit or has just the right size, in a
  -- communicator that is not empty, `alltoall` succeeds, and each rank's receive buffer is made of
  -- its block of every send buffer, in rank order, if MPI exchanges the blocks.
  pub alltoall-concat :
      0 < p
      → 0 < n
      → ((r : ℕ) → r < p → IsUniform n p (args r))
      → Exchanges mpi
      → (received : ℕ → List A) × (alltoall blank p mpi args ≡ some received)
        × ((r : ℕ)
            → r < p
            → received r ≡ concat (tabulate_from 0 p (λ j. slice (args j).send_buf (r * n) n)))
  unfolding alltoall call_of
  alltoall-concat positive some_elements each law =
      let (received, e, values) = law p n (λ r. call_of blank p (args r)) legal in
      (received, rw (checks, ◌>>◌, ◌>>=◌) e, λ r h. values r h ∙ whole r h)
    where
      checks : all_below p (λ r. buffers_suffice blank p (args r)) ≡ true
      checks =
          all_below-true p _ (λ r h. suffice blank p n positive some_elements (args r) (each r h))

      legal :
          (r : ℕ)
          → r < p
          → (send_count_of blank p (args r) ≡ n)
            × (recv_count_of blank p (args r) ≡ n)
            × (n * p ≤ length (args r).send_buf)
            × (n * p ≤ length (recv_buf_of blank p (args r)))
      legal r h = (
        send_count-block blank p n positive some_elements (args r) (each r h),
        recv_count-block blank p n positive some_elements (args r) (each r h),
        omega (arith, (each r h).blocks),
        omega (arith, length-recv_buf blank p n positive some_elements (args r) (each r h)),
      )

      blocks_of : ℕ → ℕ → List A
      blocks_of r j = slice (args j).send_buf (r * n) n

      block_in : (r : ℕ) → r < p → r * n + n ≤ n * p
      block_in r h = grind arith

      total : (r : ℕ) → r < p → length (concat (tabulate_from 0 p (blocks_of r))) ≡ n * p
      total r h = length-concat-uniform n 0 p (blocks_of r) (λ j l.
          length-slice (args j).send_buf (r * n) n
            (omega (arith, (each j (omega arith)).blocks, block_in r h)))

      whole :
          (r : ℕ)
          → r < p
          → write_at 0 (concat (tabulate_from 0 p (blocks_of r))) (recv_buf_of blank p (args r))
            ≡ concat (tabulate_from 0 p (blocks_of r))
      whole r h =
          write_at-whole _ _
            (length-recv_buf blank p n positive some_elements (args r) (each r h) ∙ sym (total r h))
