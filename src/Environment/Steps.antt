-- ===== src/Environment/Steps.antt =====
-- What one operation adds to the calls that MPI gets.
use mping.Prelude.{
  subst, ap₂, ℕ, ◌+◌, ◌≤◌, ◌≡◌, refl, sym, ◌∙◌, Bool, true, false, ◌&&◌, inl, inr, Bool-cases, List,
  [], ◌∷◌, ◌++◌, Option, some, ◌==◌, if◌then◌else◌, kassert, ◌>>◌, arith,
}
use mping.Environment.{
  MpiCall, mpi_init, mpi_finalize, State, EnvironmentObject, is_init, is_finalize, is_free_of,
  any_of, initialized, finalized, call, init, frees_of, free_registered_mpi_types, add_object,
  construct, InitMpiMode, no_init_finalize, init_finalize, init_finalize_if_necessary, finalizes,
  destroy_object,
}

abbrev pub one_if : Bool → ℕ
one_if true = 1
one_if false = 0

abbrev pub count : (MpiCall → Bool) → List MpiCall → ℕ
count f [] = 0
count f (c ∷ calls) = one_if (f c) + count f calls

abbrev pub occurrences : ℕ → List ℕ → ℕ
occurrences t [] = 0
occurrences t (u ∷ types) = one_if (u == t) + occurrences t types

pub count-append :
    (f : MpiCall → Bool) (xs ys : List MpiCall) → count f (xs ++ ys) ≡ count f xs + count f ys
count-append f [] ys = omega arith
count-append f (x ∷ xs) ys = omega (arith, count-append f xs ys)

pub occurrences-append :
    (t : ℕ) (xs ys : List ℕ) → occurrences t (xs ++ ys) ≡ occurrences t xs + occurrences t ys
occurrences-append t [] ys = omega arith
occurrences-append t (x ∷ xs) ys = omega (arith, occurrences-append t xs ys)

and-false : (b : Bool) → (b && false) ≡ false
and-false true = refl
and-false false = refl

any_of-count : (f : MpiCall → Bool) (xs : List MpiCall) → any_of f xs ≡ false → count f xs ≡ 0
any_of-count f [] h = refl
any_of-count f (x ∷ xs) h = ground (arith, any_of-count f xs)

init-frees_of : (ts : List ℕ) → count is_init (frees_of ts) ≡ 0
init-frees_of [] = refl
init-frees_of (t ∷ ts) = ground (arith, init-frees_of ts)

finalize-frees_of : (ts : List ℕ) → count is_finalize (frees_of ts) ≡ 0
finalize-frees_of [] = refl
finalize-frees_of (t ∷ ts) = ground (arith, finalize-frees_of ts)

free-frees_of :
    (t : ℕ) (ts : List ℕ) → (t ≡ 0 → ⊥) → count (is_free_of t) (frees_of ts) ≡ occurrences t ts
free-frees_of t [] n = refl
free-frees_of t (u ∷ ts) n = ground (arith, free-frees_of t ts n)

-- MPI is initialized at most once and finalized at most once.
pub record Once (s : State) : Type 0 where
  pub inits_once : count is_init s.calls ≤ 1
  pub finalizes_once : count is_finalize s.calls ≤ 1

-- How often a type was freed, and how often it is still to be freed.
abbrev pub releases : ℕ → State → ℕ
releases t s = count (is_free_of t) s.calls + occurrences t s.registered_mpi_types

-- What a step does to both: it hands over `n t` further releases of the type `t`.
pub record Steps (n : ℕ → ℕ) (s u : State) : Type 0 where
  pub once : Once s → Once u
  pub balance : (t : ℕ) → (t ≡ 0 → ⊥) → releases t u ≡ releases t s + n t

abbrev pub nothing : ℕ → ℕ
nothing t = 0

pub stays : (s : State) → Steps nothing s s
stays s = record { once = λ o. o; balance = λ t h. omega arith }

pub first_init : (s : State) → initialized s ≡ false → Steps nothing s (call mpi_init s)
first_init s h = record {
  once = λ o. record {
    inits_once =
        omega (arith, count-append is_init s.calls (mpi_init ∷ []), any_of-count is_init s.calls h);
    finalizes_once =
        omega (arith, count-append is_finalize s.calls (mpi_init ∷ []), o.finalizes_once);
  };
  balance = λ t n. omega (arith, count-append (is_free_of t) s.calls (mpi_init ∷ []));
}

pub init-Steps : (s : State) → Steps nothing s (init s)
unfolding init
init-Steps s = elim (Bool-cases (initialized s)) [
  | inl y ↦ rw y (stays s)
  | inr n ↦ rw n (first_init s n)
]

pub first_finalize :
    (s : State)
    → finalized s ≡ false
    → Steps nothing s (call mpi_finalize (free_registered_mpi_types s))
unfolding free_registered_mpi_types
first_finalize s h =
    let freed = s.calls ++ frees_of s.registered_mpi_types in
    record {
      once = λ o. record {
        inits_once = omega (
          arith,
          count-append is_init freed (mpi_finalize ∷ []),
          count-append is_init s.calls (frees_of s.registered_mpi_types),
          init-frees_of s.registered_mpi_types,
          o.inits_once,
        );
        finalizes_once = omega (
          arith,
          count-append is_finalize freed (mpi_finalize ∷ []),
          count-append is_finalize s.calls (frees_of s.registered_mpi_types),
          finalize-frees_of s.registered_mpi_types,
          any_of-count is_finalize s.calls h,
        );
      };
      balance = λ t n. omega (
        arith,
        count-append (is_free_of t) freed (mpi_finalize ∷ []),
        count-append (is_free_of t) s.calls (frees_of s.registered_mpi_types),
        free-frees_of t s.registered_mpi_types n,
      );
    }

-- Objects and the attached buffer play no part.
pub with_rest :
    (n : ℕ → ℕ) (s u w : State)
    → u.calls ≡ w.calls
    → u.registered_mpi_types ≡ w.registered_mpi_types
    → Steps n s u
    → Steps n s w
with_rest n s u w c r k = record {
  once = λ o.
      let p = k.once o in
      record {
        inits_once = subst (λ l. count is_init l ≤ 1) c p.inits_once;
        finalizes_once = subst (λ l. count is_finalize l ≤ 1) c p.finalizes_once;
      };
  balance =
      λ t h. ap₂ (λ l m. count (is_free_of t) l + occurrences t m) (sym c) (sym r) ∙ k.balance t h;
}

pub construct-Steps : (mode : InitMpiMode) (s : State) → Steps nothing s (construct mode s)
unfolding construct
construct-Steps no_init_finalize s =
    with_rest nothing s s (add_object no_init_finalize false s) refl refl (stays s)
construct-Steps init_finalize s =
    with_rest nothing s (init s) (add_object init_finalize false (init s)) refl refl (init-Steps s)
construct-Steps init_finalize_if_necessary s = elim (Bool-cases (initialized s)) [
  | inl y ↦
      rw y
        (with_rest nothing s s (add_object init_finalize_if_necessary false s) refl refl (stays s))
  | inr n ↦ rw n (
      with_rest nothing s (init s) (add_object init_finalize_if_necessary true (init s)) refl refl
        (init-Steps s))
]

pub destroy_object-Steps :
    (e : EnvironmentObject) (s : State) → Steps nothing s (destroy_object e s)
unfolding destroy_object
destroy_object-Steps e s = elim (Bool-cases (finalized s)) [
  | inl y ↦ rw (y, and-false (finalizes e)) (stays s)
  | inr n ↦ elim (Bool-cases (finalizes e)) [
    | inl y ↦ rw (n, y) (first_finalize s n)
    | inr m ↦ rw (n, m) (stays s)
  ]
]

pub kassert-some :
    {A : Type 0} (b : Bool) (m : Option A) (u : A)
    → (kassert b >> m) ≡ some u
    → (b ≡ true) × (m ≡ some u)
kassert-some true m u e = (refl, e)
kassert-some false m u e = absurd cc

pub negated : (b : Bool) → (if b then false else true) ≡ true → b ≡ false
negated true e = absurd cc
negated false e = refl

pub reach : (n : ℕ → ℕ) (s x u : State) → some x ≡ some u → Steps n s x → Steps n s u
reach n s x u e k = let q : x ≡ u = cc in subst (Steps n s) q k
