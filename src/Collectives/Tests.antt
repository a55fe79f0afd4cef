-- ===== src/Collectives/Tests.antt =====
-- Runs of the collective operations, and their theorems at concrete arguments.
use mping.Prelude.{
  ◌≢◌, ℕ, zero, suc, ◌+◌, ◌*◌, ◌<◌, ◌≤◌, ◌≡◌, refl, inl, false, List, [], ◌∷◌, length, get_or,
  exclusive_scan, none, some, arith,
}
use mping.Blocks.{slice, concat, tabulate_from}
use mping.Collectives.{compute_required_recv_buf_size}
use mping.Collectives.RequiredSize.{required_size-least}
use mping.Collectives.Mpi.{
  alltoall_now, alltoall_now-Exchanges, alltoallv_now, alltoallv_now-Delivers, gather_now,
  gather_now-Gathers, gatherv_now, gatherv_now-Gathers,
}
use mping.Collectives.{resize_to_fit}
use mping.Collectives.Gatherv
use mping.Collectives.Gatherv.{gatherv}
use mping.Collectives.Gatherv.Delivery.{default_args, gatherv-concat}
use mping.Collectives.Alltoall
use mping.Collectives.Alltoall.{alltoall}
use mping.Collectives.Alltoall.Delivery.{IsUniform, alltoall-concat}
use mping.Collectives.Alltoallv.{alltoallv, Outcome}
use mping.Collectives.Alltoallv.Delivery.{alltoallv-concat}
use mping.Collectives.Alltoallv.Calls.{with_defaults}

required_size-least_example :
    ((i : ℕ)
      → i < 2
      → get_or (2 ∷ 1 ∷ []) i 0 + get_or (4 ∷ 0 ∷ []) i 0
        ≤ compute_required_recv_buf_size false (2 ∷ 1 ∷ []) (4 ∷ 0 ∷ []) 2)
    × ((n : ℕ)
        → ((i : ℕ) → i < 2 → get_or (2 ∷ 1 ∷ []) i 0 + get_or (4 ∷ 0 ∷ []) i 0 ≤ n)
        → compute_required_recv_buf_size false (2 ∷ 1 ∷ []) (4 ∷ 0 ∷ []) 2 ≤ n)
required_size-least_example = required_size-least (2 ∷ 1 ∷ []) (4 ∷ 0 ∷ []) refl

-- Two ranks, which send one element to each.
abbrev pairs : ℕ → Alltoall.Args ℕ
pairs r = record {
  send_buf = r ∷ (r + 10) ∷ [];
  send_count = none;
  recv_count = none;
  recv_buf = [];
  recv_policy = resize_to_fit;
  recv_type_given = false;
}

alltoall-concat_example :
    (received : ℕ → List ℕ) × (alltoall 0 2 alltoall_now pairs ≡ some received)
    × ((r : ℕ)
        → r < 2
        → received r ≡ concat (tabulate_from 0 2 (λ j. slice (pairs j).send_buf (r * 1) 1)))
alltoall-concat_example =
    alltoall-concat 0 2 1 alltoall_now pairs (omega arith) (omega arith) pairs_uniform
      alltoall_now-Exchanges
  where
    pairs_uniform : (r : ℕ) → r < 2 → IsUniform 1 2 (pairs r)
    pairs_uniform r h = record {
      no_send_count = refl;
      no_recv_count = refl;
      blocks = refl;
      sized = inl refl;
    }

-- Three elements of each rank: one for rank 0 and two for rank 1.
abbrev triples : ℕ → List ℕ
triples r = r ∷ (r + 10) ∷ (r + 20) ∷ []

abbrev one_and_two : ℕ → List ℕ
one_and_two r = 1 ∷ 2 ∷ []

alltoallv-concat_example :
    (res : ℕ → Outcome ℕ) × (alltoallv 0 2 alltoall_now alltoallv_now
        (λ r. with_defaults (triples r) (one_and_two r))
      ≡ some res)
    × ((r : ℕ)
        → r < 2
        → ((res r).recv_buf
            ≡ concat (
                tabulate_from 0 2 (λ j.
                  slice
                    (triples j)
                    (get_or (exclusive_scan 0 (one_and_two j)) r 0)
                    (get_or (one_and_two j) r 0))))
          × ((res r).recv_counts ≡ tabulate_from 0 2 (λ j. get_or (one_and_two j) r 0))
          × ((res r).recv_displs
              ≡ exclusive_scan 0 (tabulate_from 0 2 (λ j. get_or (one_and_two j) r 0)))
          × ((res r).send_displs ≡ exclusive_scan 0 (one_and_two r)))
alltoallv-concat_example =
    alltoallv-concat 0 2 (omega arith) triples one_and_two (λ r h. (refl, omega arith)) alltoall_now
      alltoallv_now alltoall_now-Exchanges alltoallv_now-Delivers

-- Rank 0 sends nothing to root 1, rank 1 one element and rank 2 two.
abbrev growing : ℕ → List ℕ
growing zero = []
growing (suc r) = r ∷ growing r

gatherv-concat_example :
    (res : ℕ → Gatherv.Outcome ℕ) × (gatherv 0 3 gather_now gatherv_now
        (λ r. default_args 1 (growing r))
      ≡ some res)
    × ((res 1).recv_buf ≡ concat (tabulate_from 0 3 growing))
    × ((res 1).recv_counts ≡ tabulate_from 0 3 (λ r. length (growing r)))
    × ((res 1).recv_displs ≡ exclusive_scan 0 (tabulate_from 0 3 (λ r. length (growing r))))
    × ((r : ℕ) → r ≢ 1 → (res r).recv_buf ≡ [])
gatherv-concat_example =
    gatherv-concat 0 3 1 (omega arith) growing gather_now gatherv_now gather_now-Gathers
      gatherv_now-Gathers
