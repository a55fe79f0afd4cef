-- ===== src/Collectives/Bcast/Delivery.antt =====
-- `bcast` where the library finds out the count.
use mping.Prelude.{
  ℕ, ◌<◌, ◌≡◌, refl, ap, ◌∙◌, true, false, ◌||◌, List, length, ltb, lt→ltb, ◌==◌, ==_refl, ==_iff,
  take, take-all, Option, none, some, if◌then◌else◌, Bool-cases, inl, inr, arith,
}
use mping.Blocks.{write_at}
use mping.Blocks.Scan.{length-resize}
use mping.Collectives.{resize_to_fit, all_below}
use mping.Collectives.Buffers.{write_at-whole, all_below-true, all_below-false}
use mping.Collectives.Bcast.{
  Args, MpiBcast, Broadcasts, Outcome, is_given, buffer_or_new, count_or, value_or, count_call,
  exchange_count, buffer_of, buffer_suffices, bcast,
}

-- A rank that leaves the count to the library and lets its buffer be resized to fit.
abbrev pub deduced {ℓ} : {A : Type ℓ} → ℕ → Option (List A) → Args A
deduced root buffer = record {
  send_recv_buf = buffer;
  is_modifiable = true;
  send_recv_count = none;
  policy = resize_to_fit;
  type_given = false;
  root = root;
}

module _ {ℓ} {A : Type ℓ} (blank : A) (p root : ℕ) (root_in : root < p)
    (bufs : ℕ → Option (List A)) where
  abbrev all_args : ℕ → Args A
  all_args r = deduced root (bufs r)

  abbrev root_count : Option ℕ
  root_count = if is_given (bufs root) then some (length (buffer_or_new (bufs root))) else none

  -- Each rank has the root's count, or its sign that there is no buffer.
  counts_received :
      (mpi : MpiBcast (Option ℕ))
      → Broadcasts mpi
      → (received : ℕ → List (Option ℕ)) × (mpi p root (λ r. count_call blank p r (all_args r))
          ≡ some received)
        × ((r : ℕ) → r < p → count_or (received r) ≡ root_count)
  unfolding count_call
  counts_received mpi law =
      let (received, e, all) =
        law p root 1 (λ r. count_call blank p r (all_args r)) root_in
          (λ r l. (refl, omega arith)) in
      (received, e, λ r l. ap count_or (all r l) ∙ rw (==_refl root) refl)

  same_root : all_below p (λ r. root == root) ≡ true
  same_root = all_below-true p (λ r. root == root) (λ r h. ==_refl root)

  may_modify : all_below p (λ r. (r == root) || true) ≡ true
  may_modify = all_below-true p (λ r. (r == root) || true) (λ r h. ground arith)

  module _ (message : List A) (given : bufs root ≡ some message) where
    buffer-root : (n : ℕ) → buffer_of blank p root (all_args root) n ≡ message
    unfolding buffer_of
    buffer-root n = rw (==_refl root) (ap buffer_or_new given)

    length-buffer_of :
        (r : ℕ) → length (buffer_of blank p r (all_args r) (length message)) ≡ length message
    unfolding buffer_of
    length-buffer_of r = elim (Bool-cases (r == root)) [
      | inl y ↦ rw y (let same : r ≡ root = (==_iff r root).0 y in rw (same, given) refl)
      | inr n ↦ rw n (length-resize blank (length message) (buffer_or_new (bufs r)))
    ]

    suffices : (r : ℕ) → buffer_suffices blank p r (all_args r) (length message) ≡ true
    suffices r = unfold buffer_suffices in ground (arith, length-buffer_of r)

  -- If the root, which is a rank of the communicator, gives a buffer, `bcast` with the counts left
  -- to the library and buffers that are resized to fit succeeds, and every rank has the contents of
  -- the root's buffer and their number, whatever buffers the others gave. MPI is assumed to
  -- broadcast.
  pub bcast-copies :
      (message : List A)
      → bufs root ≡ some message
      → (mpi_count : MpiBcast (Option ℕ)) (mpi : MpiBcast A) → Broadcasts mpi_count
      → Broadcasts mpi
      → (res : ℕ → Outcome A) × (bcast blank p mpi_count mpi all_args ≡ some res)
        × ((r : ℕ)
            → r < p
            → ((res r).send_recv_buf ≡ message) × ((res r).send_recv_count ≡ length message))
  unfolding bcast exchange_count
  bcast-copies message given mpi_count mpi count_law law =
      let (counts, e, all) = counts_received mpi_count count_law in
      let cnt = λ (r : ℕ). value_or (count_or (counts r)) 0 in
      let counted : (r : ℕ) → r < p → count_or (counts r) ≡ some (length message) =
        λ r l. all r l ∙ rw given refl in
      let at_length : (r : ℕ) → r < p → cnt r ≡ length message =
        λ r l. ap (λ c. value_or c 0) (counted r l) in
      let each_counted : all_below p (λ r. is_given (count_or (counts r))) ≡ true =
        all_below-true p (λ r. is_given (count_or (counts r))) (λ r l. ap is_given (counted r l)) in
      let each_suffices : all_below p (λ r. buffer_suffices blank p r (all_args r) (cnt r)) ≡ true =
        all_below-true p (λ r. buffer_suffices blank p r (all_args r) (cnt r))
          (λ r l.
            ap (buffer_suffices blank p r (all_args r)) (at_length r l)
            ∙ suffices message given r) in
      let sized : (r : ℕ)
          → r < p
          → length (buffer_of blank p r (all_args r) (cnt r)) ≡ length message =
        λ r l.
          ap (λ n. length (buffer_of blank p r (all_args r) n)) (at_length r l)
          ∙ length-buffer_of message given r in
      let (received, e', copied) =
        law p root (length message)
          (λ r. record { buffer = buffer_of blank p r (all_args r) (cnt r); count = cnt r }) root_in
          (λ r l. (at_length r l, omega (arith, sized r l))) in
      (
        λ r. record { send_recv_buf = received r; send_recv_count = cnt r },
        rw
            (
              all_below-true p (λ r. ltb root p) (λ r l. lt→ltb root p root_in),
              same_root,
              may_modify,
              all_below-true p (λ r. true) (λ r l. refl),
              e,
              each_counted,
              each_suffices,
              e',
            )
            refl,
        λ r l. (
          copied r l
              ∙ ap
                  (λ b.
                    write_at 0 (take (length message) b) (buffer_of blank p r (all_args r) (cnt r)))
                  (buffer-root message given (cnt root))
              ∙ ap (λ b. write_at 0 b (buffer_of blank p r (all_args r) (cnt r)))
                  (take-all message (length message) (omega arith))
              ∙ write_at-whole message (buffer_of blank p r (all_args r) (cnt r)) (sized r l),
          at_length r l,
        ),
      )

  -- Without a buffer on the root the call fails.
  pub bcast-no_buffer :
      bufs root ≡ none
      → (mpi_count : MpiBcast (Option ℕ)) (mpi : MpiBcast A) → Broadcasts mpi_count
      → bcast blank p mpi_count mpi all_args ≡ none
  unfolding bcast exchange_count
  bcast-no_buffer missing mpi_count mpi count_law =
      let (counts, e, all) = counts_received mpi_count count_law in
      let first : count_or (counts root) ≡ none = all root root_in ∙ rw missing refl in
      let not_counted : all_below p (λ r. is_given (count_or (counts r))) ≡ false =
        all_below-false p (λ r. is_given (count_or (counts r))) root root_in (ap is_given first) in
      rw
        (
          all_below-true p (λ r. ltb root p) (λ r l. lt→ltb root p root_in),
          same_root,
          may_modify,
          all_below-true p (λ r. true) (λ r l. refl),
          e,
          not_counted,
        )
        refl
