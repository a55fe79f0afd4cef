-- ===== src/Collectives/ScatterTests.antt =====
-- Runs of `bcast`, `scatter` and `scatterv`, and their theorems at concrete arguments.
use mping.Prelude.{
  ℕ, zero, suc, ◌*◌, ◌<◌, ◌≡◌, refl, true, List, [], ◌∷◌, length, get_or, Option, none, some, arith,
}
use mping.Blocks.{slice, concat, lengths}
use mping.Collectives.Mpi.{
  bcast_now, bcast_now-Broadcasts, scatter_now, scatter_now-Scatters, scatterv_now,
  scatterv_now-Scatters, gather_now, gather_now-Gathers, gatherv_now, gatherv_now-Gathers,
}
use mping.Collectives.Bcast.{Outcome, bcast}
use mping.Collectives.Bcast.Delivery.{deduced, bcast-copies}
use mping.Collectives.Gatherv
use mping.Collectives.Gatherv.{gatherv}
use mping.Collectives.Gatherv.Delivery.{default_args}
use mping.Collectives.Scatter.{scatter}
use mping.Collectives.Scatter.Deduced.{sharing, scatter-slices}
use mping.Collectives.Scatterv
use mping.Collectives.Scatterv.{scatterv, send_accepted}
use mping.Collectives.Scatterv.Accepted.{scattering, scatterv-refuses}
use mping.Collectives.Scatterv.Delivery.{scatterv-blocks}
use mping.Collectives.RoundTrip.{scatterv-gatherv}

-- Rank 1 of three has two elements, the others have no buffer.
abbrev message_at : ℕ → Option (List ℕ)
message_at zero = none
message_at (suc zero) = some (7 ∷ 8 ∷ [])
message_at (suc (suc r)) = none

bcast-copies_example :
    (res : ℕ → Outcome ℕ) × (bcast 0 3 bcast_now bcast_now (λ r. deduced 1 (message_at r))
      ≡ some res)
    × ((r : ℕ) → r < 3 → ((res r).send_recv_buf ≡ 7 ∷ 8 ∷ []) × ((res r).send_recv_count ≡ 2))
bcast-copies_example =
    bcast-copies 0 3 1 (omega arith) message_at (7 ∷ 8 ∷ []) refl bcast_now bcast_now
      bcast_now-Broadcasts bcast_now-Broadcasts

abbrev six : List ℕ
six = 1 ∷ 2 ∷ 3 ∷ 4 ∷ 5 ∷ 6 ∷ []

scatter-slices_example :
    (received : ℕ → List ℕ) × (scatter 0 3 bcast_now bcast_now bcast_now scatter_now (sharing 2 six)
      ≡ some received)
    × ((r : ℕ) → r < 3 → received r ≡ slice six (r * 2) 2)
scatter-slices_example =
    scatter-slices 0 3 2 2 (omega arith) six refl bcast_now bcast_now bcast_now scatter_now
      bcast_now-Broadcasts bcast_now-Broadcasts scatter_now-Scatters

abbrev three_blocks : List (List ℕ)
three_blocks = (1 ∷ 2 ∷ []) ∷ [] ∷ (3 ∷ []) ∷ []

scatterv-blocks_example :
    (res : ℕ → Scatterv.Outcome ℕ) × (scatterv 0 3 bcast_now bcast_now bcast_now scatter_now
        scatterv_now
        (scattering 1 (concat three_blocks) (lengths three_blocks))
      ≡ some res)
    × ((r : ℕ)
        → r < 3
        → ((res r).recv_buf ≡ get_or three_blocks r [])
          × ((res r).recv_count ≡ length (get_or three_blocks r [])))
scatterv-blocks_example =
    scatterv-blocks 0 3 1 (omega arith) three_blocks refl bcast_now bcast_now bcast_now scatter_now
      scatterv_now scatter_now-Scatters scatterv_now-Scatters

scatterv-refuses_example :
    ((r : ℕ)
      → r < 2
      → send_accepted {A = ℕ} 0 2 r (scattering 0 (4 ∷ 5 ∷ []) (1 ∷ 1 ∷ 0 ∷ []) r) ≡ true)
    × (scatterv {A = ℕ} 0 2 bcast_now bcast_now bcast_now scatter_now scatterv_now
          (scattering 0 (4 ∷ 5 ∷ []) (1 ∷ 1 ∷ 0 ∷ []))
        ≡ none)
scatterv-refuses_example =
    scatterv-refuses 0 2 0 (omega arith) (4 ∷ 5 ∷ []) (1 ∷ 1 ∷ 0 ∷ []) (omega arith) (omega arith)
      bcast_now bcast_now bcast_now scatter_now scatterv_now

-- Rank 0 sends one element, the others two.
abbrev repeated : ℕ → List ℕ
repeated zero = 0 ∷ []
repeated (suc r) = suc r ∷ suc r ∷ []

scatterv-gatherv_example :
    (collected : ℕ → Gatherv.Outcome ℕ) × (gatherv 0 3 gather_now gatherv_now
        (λ r. default_args 2 (repeated r))
      ≡ some collected)
    × (res : ℕ → Scatterv.Outcome ℕ) × (scatterv 0 3 bcast_now bcast_now bcast_now scatter_now
          scatterv_now
          (scattering 2 (collected 2).recv_buf (collected 2).recv_counts)
        ≡ some res)
    × ((r : ℕ) → r < 3 → (res r).recv_buf ≡ repeated r)
scatterv-gatherv_example =
    scatterv-gatherv 0 3 2 (omega arith) repeated gather_now gatherv_now bcast_now bcast_now
      bcast_now scatter_now scatterv_now gather_now-Gathers gatherv_now-Gathers scatter_now-Scatters
      scatterv_now-Scatters
