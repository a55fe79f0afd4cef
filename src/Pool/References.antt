-- ===== src/Pool/References.antt =====
-- The pooled requests that `get_request` gives out, as a caller uses them: each for one operation.
use mathlib.Core.List.{append_assoc, append-nil}
use mping.Prelude.{
  ℕ, zero, suc, ◌-◌, ◌≡◌, refl, sym, ap, ◌∙◌, inl, inr, true, Bool-cases, List, [], ◌∷◌, ◌++◌,
  Option, none, some, map, length, length-append, ltb, lt→ltb, ==_refl, set, ◌>>=◌, arith,
}
use mping.Pool.{Request, RequestPool, PooledRequest, num_requests, get_request, write_request}

-- A caller that gets a pooled request for each operation; the operations start with these requests.
pub start_all : (ℕ → ℕ) → List ℕ → RequestPool → Option (List PooledRequest × RequestPool)
start_all grow [] pool = some ([], pool)
start_all grow (q ∷ qs) pool = do
  let (r, fresh) = get_request grow pool
  started ← write_request r q fresh
  rest ← start_all grow qs started
  some (r ∷ rest.0, rest.1)

-- `n` indices from `k` on.
abbrev pub indices_from : ℕ → ℕ → List ℕ
indices_from k zero = []
indices_from k (suc n) = k ∷ indices_from (suc k) n

set-last : (xs : List Request) (p q : Request) → set (xs ++ p ∷ []) (length xs) q ≡ xs ++ q ∷ []
set-last [] p q = refl
set-last (x ∷ xs) p q = ap (λ l. x ∷ l) (set-last xs p q)

module _ (grow : ℕ → ℕ) where
  -- The reference is good just after the call, and is to a new request behind all others.
  start-one :
      (q : ℕ) (pool : RequestPool)
      → let r = (get_request grow pool).0 in
        (r.index ≡ num_requests pool)
        × ((started : RequestPool) × (write_request r q (get_request grow pool).1 ≡ some started)
            × (started.requests ≡ pool.requests ++ some q ∷ []))
  unfolding get_request write_request
  start-one q pool =
      let longer = pool.requests ++ none ∷ [] in
      let last : length longer - 1 ≡ length pool.requests =
        omega (arith, length-append pool.requests (none ∷ [])) in
      let inside : ltb (length pool.requests) (length longer) ≡ true =
        lt→ltb (length pool.requests) (length longer)
          (omega (arith, length-append pool.requests (none ∷ []))) in
      elim (Bool-cases (ltb (length pool.requests) pool.capacity)) [
        | inl y ↦
            rw (y, ==_refl, last, inside) (refl, (_, refl, set-last pool.requests none (some q)))
        | inr n ↦
            rw (n, ==_refl, last, inside) (refl, (_, refl, set-last pool.requests none (some q)))
      ]

  -- A caller that starts operations one after the other, each with a pooled request that
  -- `get_request` has just given out, comes to its end however the vector of the pool grows: no
  -- reference dangles when it is written through; the pool has the requests from before and then
  -- those of the operations, in order, and the pooled requests have the indices of these, counted
  -- from the number of requests before.
  pub start_all-requests :
      (qs : List ℕ) (pool : RequestPool)
      → (rs : List PooledRequest) × (pool' : RequestPool) × (start_all grow qs pool
          ≡ some (rs, pool'))
        × (pool'.requests ≡ pool.requests ++ map some qs)
        × (map (λ r. r.index) rs ≡ indices_from (num_requests pool) (length qs))
  unfolding start_all
  start_all-requests [] pool = ([], pool, refl, sym (append-nil pool.requests), refl)
  start_all-requests (q ∷ qs) pool =
      let (at_end, (started, written, appended)) = start-one q pool in
      let (rs, pool', e, requests, indices) = start_all-requests qs started in
      let more : num_requests started ≡ suc (num_requests pool) =
        ap length appended ∙ length-append pool.requests (some q ∷ []) ∙ omega arith in
      (
        (get_request grow pool).0 ∷ rs,
        pool',
        rw (written, e) refl,
        requests
            ∙ ap (λ l. l ++ map some qs) appended
            ∙ append_assoc pool.requests (some q ∷ []) (map some qs),
        rw (at_end, indices, more) refl,
      )
