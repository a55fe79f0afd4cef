-- ===== src/Pool/Tests.antt =====
-- A pool of three requests, of which the second one is null.
use mping.Prelude.{
  ℕ, suc, ◌*◌, ◌≡◌, ◌⊎◌, refl, inl, inr, ap, map, List, [], ◌∷◌, Option, none, some, length, set,
  get_elem?, arith,
}
use mping.Pool.{Request, RequestPool, PooledRequest, MpiWaitany, num_requests}
use mping.Pool.References.{start_all, start_all-requests}
use mping.Pool.Completion.{active, Completes, drain, drain-active}

abbrev three : RequestPool
three = record { requests = some 7 ∷ none ∷ some 9 ∷ []; capacity = 4; allocation = 0 }

-- An MPI library that completes the first active request.
abbrev first_active : List Request → Option ℕ
first_active [] = none
first_active (some q ∷ requests) = some 0
first_active (none ∷ requests) = elim (first_active requests) [
  | none ↦ none
  | some i ↦ some (suc i)
]

abbrev completed : List Request → List Request
completed [] = []
completed (some q ∷ requests) = none ∷ requests
completed (none ∷ requests) = none ∷ completed requests

abbrev waitany_now : MpiWaitany ℕ
waitany_now requests = some (first_active requests, (0, completed requests))

first_active-lem :
    (requests : List Request)
    → ((active requests ≡ 0) × (first_active requests ≡ none) × (completed requests ≡ requests))
      ⊎ ((i : ℕ) × (q : ℕ) × (first_active requests ≡ some i)
          × (get_elem? requests i ≡ some (some q))
          × (completed requests ≡ set requests i none))
first_active-lem [] = inl (refl, refl, refl)
first_active-lem (some q ∷ requests) = inr (0, q, refl, refl, refl)
first_active-lem (none ∷ requests) = elim (first_active-lem requests) [
  | inl (a, b, c) ↦ inl (a, rw b refl, ap (λ l. none ∷ l) c)
  | inr (i, q, b, g, c) ↦ inr (suc i, q, rw b refl, g, ap (λ l. none ∷ l) c)
]

waitany_now-Completes : Completes waitany_now
waitany_now-Completes requests =
    (first_active requests, 0, completed requests, refl, first_active-lem requests)

drain-active_example :
    (indices : List ℕ) × (pool : RequestPool) × (drain waitany_now 3 three ≡ some (indices, pool))
    × (length indices ≡ active three.requests)
    × (active pool.requests ≡ 0)
    × (num_requests pool ≡ num_requests three)
drain-active_example = drain-active waitany_now 3 three waitany_now-Completes (omega arith)

start_all-requests_example :
    (rs : List PooledRequest) × (pool : RequestPool) × (start_all (λ n. 2 * n) (4 ∷ 5 ∷ []) three
      ≡ some (rs, pool))
    × (pool.requests ≡ some 7 ∷ none ∷ some 9 ∷ some 4 ∷ some 5 ∷ [])
    × (map (λ r. r.index) rs ≡ 3 ∷ 4 ∷ [])
start_all-requests_example = start_all-requests (λ n. 2 * n) (4 ∷ 5 ∷ []) three
