-- ===== src/Collectives/Bcast/Single.antt =====
-- `bcast_single`: what the ranks receive.
use mping.Prelude.{
  ℕ, ◌<◌, ◌≡◌, refl, ap, ◌∙◌, Bool, true, false, not, ◌||◌, List, [], ◌∷◌, length, ltb, lt→ltb,
  ◌==◌, ==_refl, ==_iff, take, get_or, Option, none, some, if◌then◌else◌, Bool-cases, inl, inr,
  arith,
}
use mping.Blocks.{write_at}
use mping.Collectives.{no_resize, resize_to_fit, resize_if_requested, all_below}
use mping.Collectives.Buffers.{write_at-whole, all_below-true, all_below-false}
use mping.Collectives.Bcast.{
  MpiBcast, Broadcasts, Outcome, is_given, buffer_or_new, as_buffer, SingleArgs, single_args,
  at_root, exchange_count, buffer_of, buffer_suffices, bcast, bcast_single,
}

module _ {ℓ} {A : Type ℓ} (blank : A) (p root : ℕ) (root_in : root < p)
    (values : ℕ → Option A) where
  abbrev all_args : ℕ → SingleArgs A
  all_args r = record { send_recv_buf = values r; root = root }

  same_root : all_below p (λ r. root == root) ≡ true
  same_root = all_below-true p (λ r. root == root) (λ r h. ==_refl root)

  may_modify : all_below p (λ r. (r == root) || true) ≡ true
  may_modify = all_below-true p (λ r. (r == root) || true) (λ r h. ground arith)

  length-buffer :
      (v : Option A)
      → length (
          resize_if_requested
            (if is_given v then no_resize else resize_to_fit)
            blank
            1
            (buffer_or_new (as_buffer v)))
        ≡ 1
  length-buffer none = refl
  length-buffer (some a) = refl

  module _ (value : A) (given : values root ≡ some value) where
    buffer-root :
        (n : ℕ) → buffer_of blank p root (single_args blank p (all_args root)) n ≡ value ∷ []
    unfolding buffer_of single_args
    buffer-root n = rw (==_refl root) (ap (λ v. buffer_or_new (as_buffer v)) given)

    length-buffer_of :
        (r : ℕ) → length (buffer_of blank p r (single_args blank p (all_args r)) 1) ≡ 1
    unfolding buffer_of single_args
    length-buffer_of r = elim (Bool-cases (r == root)) [
      | inl y ↦ rw y (let same : r ≡ root = (==_iff r root).0 y in rw (same, given) refl)
      | inr n ↦ rw n (length-buffer (values r))
    ]

    suffices : (r : ℕ) → buffer_suffices blank p r (single_args blank p (all_args r)) 1 ≡ true
    suffices r = unfold buffer_suffices in ground (arith, length-buffer_of r)

    root_has :
        (r : ℕ)
        → r < p
        → (not (at_root blank p r (single_args blank p (all_args r)))
            || is_given (single_args blank p (all_args r)).send_recv_buf)
          ≡ true
    unfolding single_args
    root_has r l = elim (Bool-cases (r == root)) [
      | inl y ↦ rw y (let same : r ≡ root = (==_iff r root).0 y in rw (same, given) refl)
      | inr n ↦ rw n refl
    ]

    counts_known :
        (mpi_count : MpiBcast (Option ℕ))
        → exchange_count blank p mpi_count (λ r. single_args blank p (all_args r)) ≡ some (λ r. 1)
    unfolding exchange_count single_args
    counts_known mpi_count =
        rw
          (all_below-true p
            (λ r.
              not (at_root blank p r (single_args blank p (all_args r)))
              || is_given (single_args blank p (all_args r)).send_recv_buf)
            root_has)
          refl

    -- What each rank has after the call of `bcast`.
    bcast_copies :
        (mpi_count : MpiBcast (Option ℕ)) (mpi : MpiBcast A)
        → Broadcasts mpi
        → (res : ℕ → Outcome A) × (bcast blank p mpi_count mpi
              (λ r. single_args blank p (all_args r))
            ≡ some res)
          × ((r : ℕ) → r < p → (res r).send_recv_buf ≡ value ∷ [])
    unfolding bcast single_args
    bcast_copies mpi_count mpi law =
        let (received, e, all) =
          law p root 1
            (λ r. record {
              buffer = buffer_of blank p r (single_args blank p (all_args r)) 1;
              count = 1;
            })
            root_in (λ r l. (refl, omega (arith, length-buffer_of r))) in
        (
          λ r. record { send_recv_buf = received r; send_recv_count = 1 },
          rw
              (
                all_below-true p (λ r. ltb root p) (λ r l. lt→ltb root p root_in),
                same_root,
                may_modify,
                all_below-true p (λ r. true) (λ r l. refl),
                counts_known mpi_count,
                all_below-true p
                    (λ r. buffer_suffices blank p r (single_args blank p (all_args r)) 1)
                    (λ r l. suffices r),
                e,
              )
              refl,
          λ r l.
              all r l
              ∙ ap
                  (λ b.
                    write_at 0 (take 1 b)
                      (buffer_of blank p r (single_args blank p (all_args r)) 1))
                  (buffer-root 1)
              ∙ write_at-whole (value ∷ [])
                  (buffer_of blank p r (single_args blank p (all_args r)) 1) (length-buffer_of r),
        )

  -- The sign that the root has a buffer, as the ranks receive it
  flags_received :
      (mpi : MpiBcast Bool)
      → Broadcasts mpi
      → (flags : ℕ → List Bool) × (mpi p root
            (λ r. record { buffer = is_given (values r) ∷ []; count = 1 })
          ≡ some flags)
        × ((r : ℕ) → r < p → get_or (flags r) 0 false ≡ is_given (values root))
  flags_received mpi law =
      let (flags, e, all) =
        law p root 1 (λ r. record { buffer = is_given (values r) ∷ []; count = 1 }) root_in
          (λ r l. (refl, omega arith)) in
      (flags, e, λ r l. ap (λ b. get_or b 0 false) (all r l))

  pub bcast_single-copies :
      (mpi_flag : MpiBcast Bool) (mpi_count : MpiBcast (Option ℕ)) (mpi : MpiBcast A)
      → Broadcasts mpi_flag
      → Broadcasts mpi
      → (value : A) → values root ≡ some value
      → (res : ℕ → A) × (bcast_single blank p mpi_flag mpi_count mpi all_args ≡ some res)
        × ((r : ℕ) → r < p → res r ≡ value)
  unfolding bcast_single
  bcast_single-copies mpi_flag mpi_count mpi flag_law law value given =
      let (flags, e, flagged) = flags_received mpi_flag flag_law in
      let (res, e', all) = bcast_copies value given mpi_count mpi law in
      let each_flagged : all_below p (λ r. get_or (flags r) 0 false) ≡ true =
        all_below-true p (λ r. get_or (flags r) 0 false) (λ r l. flagged r l ∙ ap is_given given) in
      (
        λ r. get_or (res r).send_recv_buf 0 blank,
        rw (e, each_flagged, e') refl,
        λ r l. ap (λ b. get_or b 0 blank) (all r l),
      )

  pub bcast_single-no_buffer :
      (mpi_flag : MpiBcast Bool) (mpi_count : MpiBcast (Option ℕ)) (mpi : MpiBcast A)
      → Broadcasts mpi_flag
      → values root ≡ none
      → bcast_single blank p mpi_flag mpi_count mpi all_args ≡ none
  unfolding bcast_single
  bcast_single-no_buffer mpi_flag mpi_count mpi flag_law missing =
      let (flags, e, flagged) = flags_received mpi_flag flag_law in
      let not_flagged : all_below p (λ r. get_or (flags r) 0 false) ≡ false =
        all_below-false p (λ r. get_or (flags r) 0 false) root root_in
          (flagged root root_in ∙ ap is_given missing) in
      rw (e, not_flagged) refl
