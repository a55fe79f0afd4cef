-- ===== src/Pool/Completion.antt =====
-- Waiting for the requests of a pool until none is left.
use mping.Prelude.{
  ℕ, zero, suc, ◌<◌, ◌≡◌, ◌⊎◌, inl, inr, refl, ap, sym, ◌∙◌, Bool, true, false, List, [], ◌∷◌,
  Option, none, some, length, ◌==◌, ==_refl, get_elem?, set, ◌>>=◌, arith,
}
use mping.Pool.{
  Request, RequestPool, MpiWaitany, index_of, index_end, num_requests, with_requests, wait_any,
}

-- The requests that are not null.
abbrev pub active : List Request → ℕ
active [] = 0
active (none ∷ requests) = active requests
active (some q ∷ requests) = suc (active requests)

-- What MPI documents: MPI_UNDEFINED where no request is active, otherwise the index of an active
-- request, which is null afterwards.
abbrev pub Completes : {S : Type 0} → MpiWaitany S → Type 0
Completes {S} mpi =
    (requests : List Request)
    → (index : Option ℕ) × (status : S) × (after : List Request) × (mpi requests
        ≡ some (index, (status, after)))
      × (((active requests ≡ 0) × (index ≡ none) × (after ≡ requests))
          ⊎ ((i : ℕ) × (q : ℕ) × (index ≡ some i)
              × (get_elem? requests i ≡ some (some q))
              × (after ≡ set requests i none)))

active-set :
    (requests : List Request) (i q : ℕ)
    → get_elem? requests i ≡ some (some q)
    → active requests ≡ suc (active (set requests i none))
active-set [] i q e = absurd cc
active-set (none ∷ requests) zero q e = absurd cc
active-set (some r ∷ requests) zero q e = refl
active-set (none ∷ requests) (suc i) q e = active-set requests i q e
active-set (some r ∷ requests) (suc i) q e = ap suc (active-set requests i q e)

length-set : (requests : List Request) (i : ℕ) → length (set requests i none) ≡ length requests
length-set [] i = refl
length-set (r ∷ requests) zero = refl
length-set (r ∷ requests) (suc i) = ap suc (length-set requests i)

inside :
    (requests : List Request) (i : ℕ) (q : Request)
    → get_elem? requests i ≡ some q
    → i < length requests
inside [] i q e = absurd cc
inside (r ∷ requests) zero q e = omega arith
inside (r ∷ requests) (suc i) q e = omega (arith, inside requests i q e)

module _ {S : Type 0} (mpi : MpiWaitany S) where
  abbrev continued :
      Bool → ℕ → RequestPool → Option (List ℕ × RequestPool) → Option (List ℕ × RequestPool)
  continued true index pool rest = some ([], pool)
  continued false index pool rest = rest >>= λ r. some (index ∷ r.0, r.1)

  -- A caller that waits for any request until there is none, and keeps the indices.
  pub drain : ℕ → RequestPool → Option (List ℕ × RequestPool)
  drain zero pool = none
  drain (suc fuel) pool =
      wait_any mpi pool >>= λ a. continued (a.0 == index_end pool) a.0 (a.1.1) (drain fuel (a.1.1))

  wait_any-answer :
      (pool : RequestPool) {index : Option ℕ} {status : S} {after : List Request}
      → mpi pool.requests ≡ some (index, (status, after))
      → wait_any mpi pool ≡ some (index_of pool index, (status, with_requests pool after))
  unfolding wait_any
  wait_any-answer pool e = rw e refl

  -- A caller that calls `wait_any` until it returns the end index, on a pool with fewer active
  -- requests than calls allowed, comes to an end: it gets one index for each request that was
  -- active, no request of the pool is active afterwards, and the pool has as many requests as
  -- before, if MPI completes an active request in each call and reports when there is none.
  pub drain-active :
      (fuel : ℕ) (pool : RequestPool)
      → Completes mpi
      → active pool.requests < fuel
      → (indices : List ℕ) × (pool' : RequestPool) × (drain fuel pool ≡ some (indices, pool'))
        × (length indices ≡ active pool.requests)
        × (active pool'.requests ≡ 0)
        × (num_requests pool' ≡ num_requests pool)
  unfolding drain
  drain-active zero pool law h = absurd (omega arith)
  drain-active (suc fuel) pool law h =
      let (index, status, after, e, cases) = law pool.requests in
      elim cases [
        | inl (idle, u, same) ↦ (
          [],
          with_requests pool after,
          rw (wait_any-answer pool e, u) (rw (==_refl (length pool.requests)) refl),
          sym idle,
          ap active same ∙ idle,
          ap length same,
        )
        | inr (i, q, u, was, now) ↦
            let before : (i == length pool.requests) ≡ false =
              ground (arith, inside pool.requests i (some q) was) in
            let less = active-set pool.requests i q was in
            let (rest, p, d, n, z, l) =
              drain-active fuel (with_requests pool after) law (omega (arith, ap active now)) in
            (
              i ∷ rest,
              p,
              rw (wait_any-answer pool e, u) (rw (before, d) refl),
              omega (arith, ap active now),
              z,
              l ∙ ap length now ∙ length-set pool.requests i,
            )
      ]
