-- ===== src/Comm/Ownership/Conserved.antt =====
-- Every handle that MPI made is owned by one object, freed once or handed out once.
use mping.Prelude.{
  ℕ, zero, suc, ◌+◌, ◌≡◌, refl, false, List, [], ◌∷◌, some, get_elem?, set, if◌then◌else◌, ◌==◌,
  arith, ltb, Option-cases, inl, inr,
}
use mping.Comm.{Comm, Handle, null, world, handle}
use mping.Comm.Ownership.{
  Program, Call, create, wrap, copies, moves, destroys, disowns, move_assigns, copy_assigns, step,
  run, start, remove_at, copy_construct, move_construct, destruct, move_assign, copy_assign, disown,
}

-- 1 where the handle is the one numbered `n`, else 0.
abbrev one_if : ℕ → Handle → ℕ
one_if n null = 0
one_if n world = 0
one_if n (handle m) = if m == n then 1 else 0

-- How often the handle numbered `n` stands in a list.
abbrev pub times : ℕ → List Handle → ℕ
times n [] = 0
times n (h ∷ hs) = one_if n h + times n hs

abbrev owns : ℕ → Comm → ℕ
owns n c = if c.owns_mpi_comm then one_if n c.comm else 0

-- How many objects own the handle numbered `n`.
abbrev pub owners : ℕ → List Comm → ℕ
owners n [] = 0
owners n (c ∷ cs) = owns n c + owners n cs

abbrev holders : ℕ → Program → ℕ
holders n p = owners n p.objects + times n p.freed + times n p.handed_out

owners-set :
    (n : ℕ) (cs : List Comm) (i : ℕ) (c d : Comm)
    → get_elem? cs i ≡ some c
    → owners n (set cs i d) + owns n c ≡ owners n cs + owns n d
owners-set n [] i c d e = absurd (cc)
owners-set n (x ∷ cs) zero c d e = ground arith
owners-set n (x ∷ cs) (suc i) c d e = omega (arith, owners-set n cs i c d e)

owners-remove_at :
    (n : ℕ) (cs : List Comm) (i : ℕ) (c : Comm)
    → get_elem? cs i ≡ some c
    → owners n (remove_at cs i) + owns n c ≡ owners n cs
owners-remove_at n [] i c e = absurd (cc)
owners-remove_at n (x ∷ cs) zero c e = ground arith
owners-remove_at n (x ∷ cs) (suc i) c e = omega (arith, owners-remove_at n cs i c e)

get_elem?-set_other :
    (cs : List Comm) (i j : ℕ) (b : Comm)
    → get_elem? cs j ≡ some b
    → get_elem? (set cs i b) j ≡ some b
get_elem?-set_other [] i j b e = e
get_elem?-set_other (x ∷ cs) zero zero b e = refl
get_elem?-set_other (x ∷ cs) zero (suc j) b e = e
get_elem?-set_other (x ∷ cs) (suc i) zero b e = e
get_elem?-set_other (x ∷ cs) (suc i) (suc j) b e = get_elem?-set_other cs i j b e

owners-swap :
    (n : ℕ) (cs : List Comm) (i j : ℕ) (a b : Comm)
    → get_elem? cs i ≡ some a
    → get_elem? cs j ≡ some b
    → owners n (set (set cs i b) j a) ≡ owners n cs
owners-swap n cs i j a b e e' = omega (
  arith,
  owners-set n cs i a b e,
  owners-set n (set cs i b) j b a (get_elem?-set_other cs i j b e'),
)

-- Each handle below `next` has one holder.
abbrev pub IsConserved : Program → Type 0
IsConserved p =
    (n : ℕ)
    → owners n p.objects + times n p.freed + times n p.handed_out ≡ (if ltb n p.next then 1 else 0)

step-IsConserved : (p : Program) (c : Call) → IsConserved p → IsConserved (step p c)
unfolding step copy_construct move_construct destruct move_assign copy_assign disown
step-IsConserved p (create c) v n = ground (arith, v n)
step-IsConserved p (wrap c) v n = ground (arith, v n)
step-IsConserved p (copies i) v n = ground (arith, v n)
step-IsConserved p (moves i) v n = elim (Option-cases (get_elem? p.objects i)) [
  | inl e ↦ ground (arith, v n)
  | inr (c, e) ↦
      (ground (
        arith,
        v n,
        owners-set n p.objects i c (record c { comm = null; owns_mpi_comm = false }) e,
      ))
]
step-IsConserved p (destroys i) v n = elim (Option-cases (get_elem? p.objects i)) [
  | inl e ↦ ground (arith, v n)
  | inr (c, e) ↦ (ground (arith, v n, owners-remove_at n p.objects i c e))
]
step-IsConserved p (disowns i) v n = elim (Option-cases (get_elem? p.objects i)) [
  | inl e ↦ ground (arith, v n)
  | inr (c, e) ↦
      (ground (arith, v n, owners-set n p.objects i c (record c { owns_mpi_comm = false }) e))
]
step-IsConserved p (move_assigns i j) v n = elim (Option-cases (get_elem? p.objects i)) [
  | inl e ↦ ground (arith, v n)
  | inr (a, e) ↦ elim (Option-cases (get_elem? p.objects j)) [
    | inl e' ↦ ground (arith, v n)
    | inr (b, e') ↦ ground (arith, v n, owners-swap n p.objects i j a b e e')
  ]
]
step-IsConserved p (copy_assigns i j) v n = elim (Option-cases (get_elem? p.objects i)) [
  | inl e ↦ ground (arith, v n)
  | inr (a, e) ↦ elim (Option-cases (get_elem? p.objects j)) [
    | inl e' ↦ ground (arith, v n)
    | inr (b, e') ↦
        ground (arith, v n, owners-set n p.objects i a (copy_construct b (handle p.next)) e)
  ]
]

run_from : (p : Program) (cs : List Call) → IsConserved p → IsConserved (run p cs)
unfolding run
run_from p [] v = v
run_from p (c ∷ cs) v = run_from (step p c) cs (step-IsConserved p c v)

start-IsConserved : IsConserved start
unfolding start
start-IsConserved n = ground arith

-- After any sequence of constructions, copies, moves, assignments, disownings and destructions,
-- every handle that MPI made is owned by one object, or was freed once, or was handed out once, and
-- only one of these; of a handle that MPI did not make, none.
pub run-IsConserved : (cs : List Call) → IsConserved (run start cs)
run-IsConserved cs = run_from start cs start-IsConserved
