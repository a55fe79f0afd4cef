-- ===== src/Environment/Calls.antt =====
-- The calls that MPI gets from a program that uses environments in any way.
use mping.Prelude.{
  ℕ, ◌+◌, ◌≡◌, refl, ap, true, false, inl, inr, Option-cases, List, [], ◌∷◌, Option, none, some,
  ◌==◌, leb, get_elem?, set, if◌then◌else◌, kassert, ◌>>=◌, ◌>>◌, arith, Bool,
}
use mping.Environment.{
  MpiCall, mpi_init, mpi_finalize, mpi_type_commit, mpi_type_free, mpi_buffer_attach,
  mpi_buffer_detach, State, EnvironmentObject, is_init, is_finalize, is_free_of, initialized,
  finalized, call, set_attached, init, init_unchecked, free_registered_mpi_types, finalize,
  construct, destroy_object, destroy, register_mpi_type, commit_and_register, free_type,
  buffer_attach, buffer_detach, Operation, constructs, destroys, inits, inits_unchecked,
  finalizes_now, detaches, registers, commits, frees, attaches, operate, run, start,
}
use mping.Environment.Steps.{
  one_if, count-append, occurrences-append, Once, releases, Steps, nothing, stays, first_init,
  init-Steps, first_finalize, with_rest, construct-Steps, destroy_object-Steps, kassert-some,
  negated, reach,
}

-- The releases of a type that a call asks for: a registration, or an explicit `free`.
abbrev pub asked_by : Operation → ℕ → ℕ
asked_by (constructs mode) t = 0
asked_by (destroys i) t = 0
asked_by inits t = 0
asked_by inits_unchecked t = 0
asked_by finalizes_now t = 0
asked_by (detaches i) t = 0
asked_by (registers u) t = one_if (u == t)
asked_by (commits u) t = one_if (u == t)
asked_by (frees u) t = one_if (u == t)
asked_by (attaches i bytes) t = 0

abbrev pub asked_for : List Operation → ℕ → ℕ
asked_for [] t = 0
asked_for (o ∷ os) t = asked_by o t + asked_for os t

-- A call that is neither `MPI_Init` nor `MPI_Finalize`.
other_call :
    (c : MpiCall) (s : State)
    → is_init c ≡ false
    → is_finalize c ≡ false
    → Steps (λ t. one_if (is_free_of t c)) s (call c s)
other_call c s i f = record {
  once = λ o. record {
    inits_once = omega (arith, count-append is_init s.calls (c ∷ []), ap one_if i, o.inits_once);
    finalizes_once =
        omega (arith, count-append is_finalize s.calls (c ∷ []), ap one_if f, o.finalizes_once);
  };
  balance = λ t n. omega (arith, count-append (is_free_of t) s.calls (c ∷ []));
}

register-Steps : (u : ℕ) (s : State) → Steps (λ t. one_if (u == t)) s (register_mpi_type u s)
unfolding register_mpi_type
register-Steps u s = record {
  once = λ o. record { inits_once = o.inits_once; finalizes_once = o.finalizes_once };
  balance = λ t n. omega (arith, occurrences-append t s.registered_mpi_types (u ∷ []));
}

trans : (m n : ℕ → ℕ) (s u w : State) → Steps m s u → Steps n u w → Steps (λ t. m t + n t) s w
trans m n s u w k l = record {
  once = λ o. l.once (k.once o);
  balance = λ t h. omega (arith, k.balance t h, l.balance t h);
}

destroy-Steps : (i : ℕ) (s u : State) → destroy i s ≡ some u → Steps nothing s u
unfolding destroy
destroy-Steps i s u e = go (get_elem? s.objects i) e
  where
    go :
        (slot : Option (Option EnvironmentObject))
        → (slot >>= λ o. o >>= λ e'.
            some
              (record (destroy_object e' s) { objects = set (destroy_object e' s).objects i none }))
          ≡ some u
        → Steps nothing s u
    go none e = absurd cc
    go (some none) e = absurd cc
    go (some (some x)) e = reach nothing s _ u e (
        with_rest nothing s (destroy_object x s)
          (record (destroy_object x s) { objects = set (destroy_object x s).objects i none }) refl
          refl (destroy_object-Steps x s))

-- The flag of an object plays no part.
flagged :
    (c : MpiCall) (i : ℕ) (x : EnvironmentObject) (flag : Bool) (s : State)
    → is_init c ≡ false
    → is_finalize c ≡ false
    → Steps (λ t. one_if (is_free_of t c)) s (set_attached i x flag (call c s))
flagged c i x flag s a b =
    with_rest (λ t. one_if (is_free_of t c)) s (call c s) (set_attached i x flag (call c s)) refl
      refl (other_call c s a b)

attach-Steps : (i bytes : ℕ) (s u : State) → buffer_attach i bytes s ≡ some u → Steps nothing s u
unfolding buffer_attach
attach-Steps i bytes s u e = go (get_elem? s.objects i) e
  where
    accepted : EnvironmentObject → Option State
    accepted x =
        kassert (leb bytes 2147483647)
        >> some (set_attached i x true (call (mpi_buffer_attach bytes) s))

    go :
        (slot : Option (Option EnvironmentObject))
        → (slot >>= λ o.
            o >>= λ x. kassert (if x.has_buffer_attached then false else true) >> accepted x)
          ≡ some u
        → Steps nothing s u
    go none e = absurd cc
    go (some none) e = absurd cc
    go (some (some x)) e =
        let w = set_attached i x true (call (mpi_buffer_attach bytes) s) in
        let (b, e') =
          kassert-some (if x.has_buffer_attached then false else true) (accepted x) u e in
        let (b', e'') = kassert-some (leb bytes 2147483647) (some w) u e' in
        reach nothing s w u e'' (flagged (mpi_buffer_attach bytes) i x true s refl refl)

detach-Steps : (i : ℕ) (s u : State) → buffer_detach i s ≡ some u → Steps nothing s u
unfolding buffer_detach
detach-Steps i s u e = go (get_elem? s.objects i) e
  where
    go :
        (slot : Option (Option EnvironmentObject))
        → (slot >>= λ o. o >>= λ x.
            kassert x.has_buffer_attached
            >> some (set_attached i x false (call mpi_buffer_detach s)))
          ≡ some u
        → Steps nothing s u
    go none e = absurd cc
    go (some none) e = absurd cc
    go (some (some x)) e =
        let w = set_attached i x false (call mpi_buffer_detach s) in
        let (b, e') = kassert-some x.has_buffer_attached (some w) u e in
        reach nothing s w u e' (flagged mpi_buffer_detach i x false s refl refl)

operate-Steps : (o : Operation) (s u : State) → operate o s ≡ some u → Steps (asked_by o) s u
unfolding operate init_unchecked finalize commit_and_register free_type
operate-Steps (constructs mode) s u e =
    reach nothing s (construct mode s) u e (construct-Steps mode s)
operate-Steps (destroys i) s u e = destroy-Steps i s u e
operate-Steps inits s u e = reach nothing s (init s) u e (init-Steps s)
operate-Steps inits_unchecked s u e =
    let (b, e') =
      kassert-some (if initialized s then false else true) (some (call mpi_init s)) u e in
    reach nothing s (call mpi_init s) u e' (first_init s (negated (initialized s) b))
operate-Steps finalizes_now s u e =
    let (b, e') =
      kassert-some (if finalized s then false else true)
        (some (call mpi_finalize (free_registered_mpi_types s))) u e in
    reach nothing s (call mpi_finalize (free_registered_mpi_types s)) u e'
      (first_finalize s (negated (finalized s) b))
operate-Steps (detaches i) s u e = detach-Steps i s u e
operate-Steps (registers v) s u e =
    reach (asked_by (registers v)) s (register_mpi_type v s) u e (register-Steps v s)
operate-Steps (commits v) s u e =
    reach (asked_by (commits v)) s (register_mpi_type v (call (mpi_type_commit v) s)) u e (
      let k = other_call (mpi_type_commit v) s refl refl in
      let l = register-Steps v (call (mpi_type_commit v) s) in
      record {
        once = λ o. l.once (k.once o);
        balance = λ t h. omega (arith, k.balance t h, l.balance t h);
      })
operate-Steps (frees v) s u e =
    reach (asked_by (frees v)) s (call (mpi_type_free v) s) u e
      (other_call (mpi_type_free v) s refl refl)
operate-Steps (attaches i bytes) s u e = attach-Steps i bytes s u e

none-some : {A : Type 0} {x : A} → none ≡ some x → ⊥
none-some e = absurd cc

run-Steps : (os : List Operation) (s u : State) → run os s ≡ some u → Steps (asked_for os) s u
unfolding run
run-Steps [] s u e = reach nothing s s u e (stays s)
run-Steps (o ∷ os) s u e = elim (Option-cases (operate o s)) [
  | inl q ↦ absurd (none-some (rw q at e))
  | inr (t, q) ↦
      trans (asked_by o) (asked_for os) s t u (operate-Steps o s t q) (run-Steps os t u (rw q at e))
]

-- If a program that constructs and destroys environments of any mode, initializes, finalizes, and
-- registers and frees types comes to its end, then MPI_Init and MPI_Finalize were each called at
-- most once, and each type other than the null type was freed, or still waits to be freed, just as
-- often as the program registered it or freed it itself.
pub run-Once :
    (os : List Operation) (u : State)
    → run os start ≡ some u
    → Once u × ((t : ℕ) → (t ≡ 0 → ⊥) → releases t u ≡ asked_for os t)
unfolding start
run-Once os u e =
    let k = run-Steps os start u e in
    (
      k.once (record { inits_once = omega arith; finalizes_once = omega arith }),
      λ t n. omega (arith, k.balance t n),
    )
