-- ===== src/Collectives/Exscan/Delivery.antt =====
-- `exscan` and `exscan_inplace` of an operation with an identity, with the count left to the library.
use mping.Prelude.{
  ℕ, zero, suc, ◌<◌, ◌≡◌, refl, ap, sym, ◌∙◌, true, false, List, [], length, leb, ◌==◌, take,
  take-all, replicate, length-replicate, none, some, ◌>>=◌, if◌then◌else◌, arith,
}
use mping.Blocks.{write_at}
use mping.Blocks.Scan.{length-resize}
use mping.Collectives.{resize_to_fit, BufferResizePolicy, all_below}
use mping.Collectives.Buffers.{write_at-whole, all_below-true, resize_if_requested-same}
use mping.Collectives.Bcast.{value_or}
use mping.Collectives.Exscan.{
  Args, InPlaceArgs, Call, MpiExscan, Scans, prefix, contributed, write_start, fill_identity,
  on_rank_0, count_of, recv_buf_of, buffer_suffices, call_of, exscan, inplace_count_of, buffer_of,
  buffer_fits, inplace_call_of, exscan_inplace,
}
use mping.Collectives.Exscan.Prefixes.{exclusive, exclusive-prefix, length-prefix, prefix-ext}

abbrev pub scanning {ℓ} : {A : Type ℓ} → List A → Args A
scanning send_buf = record {
  send_buf = send_buf;
  send_recv_count = none;
  recv_buf = [];
  policy = resize_to_fit;
  type_given = false;
  values_on_rank_0 = none;
}

abbrev pub scanning_inplace {ℓ} : {A : Type ℓ} → BufferResizePolicy → List A → InPlaceArgs A
scanning_inplace policy send_recv_buf = record {
  send_recv_buf = send_recv_buf;
  send_recv_count = none;
  policy = policy;
  type_given = false;
  values_on_rank_0 = none;
}

module _ {ℓ} {A : Type ℓ} (blank : A) (p : ℕ) (op : A → A → A) (e : A) where
  -- On rank 0 the identity fills a buffer of the size of the count.
  on_rank_0-identity :
      (n : ℕ) (buffer : List A)
      → length buffer ≡ n
      → on_rank_0 blank p op (some e) none false n buffer ≡ some (replicate n e)
  unfolding on_rank_0 fill_identity write_start
  on_rank_0-identity n buffer size =
      let enough : leb (length (replicate n e)) (length buffer) ≡ true =
        ground (arith, length-replicate n e, size) in
      rw enough
        (ap some (write_at-whole (replicate n e) buffer (size ∙ sym (length-replicate n e))))

  module _ (positive : 0 < p) (unit : (a : A) → op e a ≡ a)
      (assoc : (a b c : A) → op (op a b) c ≡ op a (op b c)) (n : ℕ) (blocks : ℕ → List A)
      (each : (r : ℕ) → r < p → length (blocks r) ≡ n) (mpi : MpiExscan A) (law : Scans mpi) where
    -- What the ranks have at the end.
    abbrev finished : (ℕ → List A) → ℕ → List A
    finished received r = if r == 0 then replicate n e else received r

    -- Any calls of `MPI_Exscan` that hand over the blocks and buffers of their size
    results :
        (calls : ℕ → Call A)
        → ((r : ℕ)
            → r < p
            → ((calls r).count ≡ n)
              × (value_or (calls r).sent (calls r).recv_buf ≡ blocks r)
              × (length (calls r).recv_buf ≡ n))
        → (received : ℕ → List A) × (mpi op p calls ≡ some received)
          × (length (received 0) ≡ n)
          × ((r : ℕ) → r < p → finished received r ≡ exclusive op e n blocks r)
    results calls handed =
        let (received, done, size, values) = law op p n calls assoc (λ r l.
          let (count, sent, room) = handed r l in
          (count, omega (arith, ap length sent, each r l), omega (arith, room))) in
        (received, done, size ∙ (handed 0 positive).2, at_rank received values)
      where
        whole : (r : ℕ) → r < p → contributed (calls r) ≡ blocks r
        whole r l =
            ap (take (calls r).count) (handed r l).1
            ∙ take-all (blocks r) (calls r).count (omega (arith, handed r l, each r l))

        at_rank :
            (received : ℕ → List A)
            → ((r : ℕ)
                → suc r < p
                → received (suc r)
                  ≡ write_at 0 (prefix op (λ j. contributed (calls j)) r) (calls (suc r)).recv_buf)
            → (r : ℕ) → r < p
            → finished received r ≡ exclusive op e n blocks r
        at_rank received values zero l = refl
        at_rank received values (suc r) l =
            let later : (suc r == 0) ≡ false = ground arith in
            rw later (
              values r l
              ∙ ap (λ b. write_at 0 b (calls (suc r)).recv_buf)
                  (prefix-ext op p (λ j. contributed (calls j)) blocks whole r (omega arith))
              ∙ write_at-whole (prefix op blocks r) (calls (suc r)).recv_buf
                  ((handed (suc r) l).2 ∙ sym (length-prefix op n p blocks each r (omega arith)))
              ∙ sym (exclusive-prefix op e unit n blocks (each 0 positive) r))

    first_filled :
        (received : ℕ → List A)
        → length (received 0) ≡ n
        → (on_rank_0 blank p op (some e) none false (length (blocks 0)) (received 0)
            >>= (λ first. some (λ r. if r == 0 then first else received r)))
          ≡ some (finished received)
    first_filled received size = rw (each 0 positive, on_rank_0-identity n (received 0) size) refl

    same_sizes : all_below p (λ r. length (blocks r) == length (blocks 0)) ≡ true
    same_sizes =
        all_below-true p (λ r. length (blocks r) == length (blocks 0))
          (λ r l. ground (arith, each r l, each 0 positive))

    all_suffice :
        all_below p (λ r. buffer_suffices blank p op (some e) (scanning (blocks r))) ≡ true
    unfolding buffer_suffices recv_buf_of count_of
    all_suffice =
        all_below-true p (λ r. buffer_suffices blank p op (some e) (scanning (blocks r)))
          (λ r l. ground (arith, length-resize blank (length (blocks r)) []))

    exscan-exclusive :
        (received : ℕ → List A) × (exscan blank p op (some e) mpi (λ r. scanning (blocks r))
          ≡ some received)
        × ((r : ℕ) → r < p → received r ≡ exclusive op e n blocks r)
    unfolding exscan call_of recv_buf_of count_of
    exscan-exclusive =
        let (received, done, size, values) =
          results (λ r. call_of blank p op (some e) (scanning (blocks r)))
            (λ r l. (each r l, refl, length-resize blank (length (blocks r)) [] ∙ each r l)) in
        (finished received, rw (same_sizes, all_suffice, done) (first_filled received size), values)

    module _ (policies : ℕ → BufferResizePolicy) where
      unchanged :
          (r : ℕ)
          → buffer_of blank p op (some e) (scanning_inplace (policies r) (blocks r)) ≡ blocks r
      unfolding buffer_of inplace_count_of
      unchanged r = resize_if_requested-same (policies r) blank (length (blocks r)) (blocks r) refl

      all_fit :
          all_below p
            (λ r. buffer_fits blank p op (some e) (scanning_inplace (policies r) (blocks r)))
          ≡ true
      unfolding buffer_fits inplace_count_of
      all_fit =
          all_below-true p
            (λ r. buffer_fits blank p op (some e) (scanning_inplace (policies r) (blocks r)))
            (λ r l. ground (arith, ap length (unchanged r)))

      exscan_inplace-exclusive :
          (received : ℕ → List A) × (exscan_inplace blank p op
              (some e)
              mpi
              (λ r. scanning_inplace (policies r) (blocks r))
            ≡ some received)
          × ((r : ℕ) → r < p → received r ≡ exclusive op e n blocks r)
      unfolding exscan_inplace inplace_call_of inplace_count_of
      exscan_inplace-exclusive =
          let (received, done, size, values) =
            results
              (λ r. inplace_call_of blank p op (some e) (scanning_inplace (policies r) (blocks r)))
              (λ r l. (each r l, unchanged r, ap length (unchanged r) ∙ each r l)) in
          (finished received, rw (same_sizes, all_fit, done) (first_filled received size), values)

      -- For an associative operation that MPI knows, with its left identity, and blocks of one size
      -- on all ranks, with the count left to the library, `exscan` and `exscan_inplace` both
      -- succeed, the latter under any resize policies, and give every rank the same: the reduction
      -- of the blocks before its own, from the identity on, which is what rank 0 has. MPI is
      -- assumed to scan, and not assumed to define the buffer of rank 0.
      pub exscan_inplace-exscan :
          (received received' : ℕ → List A) × (exscan blank p op
              (some e)
              mpi
              (λ r. scanning (blocks r))
            ≡ some received)
          × (exscan_inplace blank p op (some e) mpi (λ r. scanning_inplace (policies r) (blocks r))
              ≡ some received')
          × ((r : ℕ)
              → r < p
              → (received r ≡ exclusive op e n blocks r) × (received' r ≡ received r))
      exscan_inplace-exscan =
          let (received, done, values) = exscan-exclusive in
          let (received', done', values') = exscan_inplace-exclusive in
          (received, received', done, done', λ r l. (values r l, values' r l ∙ sym (values r l)))
