-- ===== src/Collectives/AllgatherTests.antt =====
-- The theorems on `allgather` and `allgatherv` at concrete arguments.
use mping.Prelude.{
  ℕ, zero, suc, ◌+◌, ◌*◌, ◌<◌, ◌≡◌, refl, false, List, [], ◌∷◌, length, exclusive_scan, none, some,
  arith,
}
use mping.Blocks.{slice, concat, tabulate_from}
use mping.Collectives.{no_resize}
use mping.Collectives.Mpi.{
  allgather_now, allgather_now-Gathers, allgatherv_now, allgatherv_now-Gathers,
}
use mping.Collectives.Allgather.{InPlaceArgs, allgather_inplace}
use mping.Collectives.Allgather.InPlace.{allgather_inplace-concat}
use mping.Collectives.Allgatherv.{Outcome, allgatherv}
use mping.Collectives.Allgatherv.Delivery.{sending, allgatherv-concat}

-- Rank `r` sends the elements from `r` down to 1.
abbrev descending : ℕ → List ℕ
descending zero = []
descending (suc r) = suc r ∷ descending r

allgatherv-concat_example :
    (res : ℕ → Outcome ℕ) × (allgatherv 0 3 allgather_now allgatherv_now
        (λ r. sending (descending r))
      ≡ some res)
    × ((r : ℕ)
        → r < 3
        → ((res r).recv_buf ≡ concat (tabulate_from 0 3 descending))
          × ((res r).recv_counts ≡ tabulate_from 0 3 (λ j. length (descending j)))
          × ((res r).recv_displs
              ≡ exclusive_scan 0 (tabulate_from 0 3 (λ j. length (descending j)))))
allgatherv-concat_example =
    allgatherv-concat 0 3 (omega arith) descending allgather_now allgatherv_now
      allgather_now-Gathers allgatherv_now-Gathers

-- Two ranks, with a block of two elements each in a buffer of four.
abbrev own_halves : ℕ → InPlaceArgs ℕ
own_halves r = record {
  send_recv_buf = r ∷ r ∷ (r + 5) ∷ (r + 6) ∷ [];
  send_recv_count = none;
  policy = no_resize;
  type_given = false;
}

halves_gathered :
    (received : ℕ → List ℕ) × (allgather_inplace 0 2 allgather_now own_halves ≡ some received)
    × ((r : ℕ)
        → r < 2
        → received r
          ≡ concat (tabulate_from 0 2 (λ j. slice (own_halves j).send_recv_buf (j * 2) 2)))
halves_gathered =
    allgather_inplace-concat 0 2 2 allgather_now own_halves (λ r l. (refl, refl)) (omega arith)
      allgather_now-Gathers
