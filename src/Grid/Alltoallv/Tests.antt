-- ===== src/Grid/Alltoallv/Tests.antt =====
-- The grid's exchange on five ranks, the last of which is in no full row.
use mping.Prelude.{
  ℕ, ◌+◌, ◌<◌, ◌≤◌, ◌≡◌, refl, List, [], ◌∷◌, map, length, get_or, sum, exclusive_scan, some, arith,
}
use mping.Blocks.{slice}
use mping.Buckets.{bucket, Keys}
use mping.Collectives.Mpi.{
  alltoall_now, alltoall_now-Exchanges, alltoallv_now, alltoallv_now-Delivers,
}
use mping.Collectives.Alltoallv
use mping.Collectives.Alltoallv.Calls.{with_defaults}
use mping.Grid.{Split}
use mping.Grid.Members.{members}
use mping.Grid.Routing.{SplitByRank}
use mping.Grid.Exchange.{Envelope, ReceivedBlocks, with_source_and_destination, entry_for}
use mping.Grid.Exchange.Elements.{enveloped}
use mping.Grid.Alltoallv.{alltoallv, alltoallv_with_envelope}
use mping.Grid.Alltoallv.Delivery.{alltoallv_with_envelope-messages}
use mping.Grid.Alltoallv.Arguments.{sending}
use mping.Grid.Alltoallv.Refined.{alltoallv-refines}

abbrev split_now : Split
split_now color size rank = members color (color rank) size

split_now-SplitByRank : SplitByRank split_now
split_now-SplitByRank color size rank l = refl

-- Every rank has two elements for rank 0 and one for rank 4.
abbrev three : ℕ → List ℕ
three r = r ∷ (r + 10) ∷ (r + 20) ∷ []

abbrev to_both_ends : ℕ → List ℕ
to_both_ends r = 2 ∷ 0 ∷ 0 ∷ 0 ∷ 1 ∷ []

to_both_ends-fits :
    (r : ℕ) → r < 5 → (length (to_both_ends r) ≡ 5) × (sum (to_both_ends r) ≤ length (three r))
to_both_ends-fits r l = (refl, omega arith)

abbrev zero_envelope : Envelope ℕ
zero_envelope = enveloped 0 0 0

alltoallv_with_envelope-messages_example :
    (res : ℕ → List (Envelope ℕ)) × (alltoallv_with_envelope split_now 5 alltoall_now zero_envelope
        alltoallv_now with_source_and_destination zero_envelope alltoallv_now
        (λ r. sending (three r) (to_both_ends r))
      ≡ some res)
    × ((d : ℕ)
        → d < 5
        → (came : List (Envelope ℕ)) × (res d ≡ map (entry_for with_source_and_destination) came)
          × Keys (λ e. e.source) 5 came
          × ((s : ℕ)
              → s < 5
              → bucket (λ e. e.source) s came
                ≡ map (enveloped s d) (
                    slice
                      (three s)
                      (get_or (exclusive_scan 0 (to_both_ends s)) d 0)
                      (get_or (to_both_ends s) d 0))))
alltoallv_with_envelope-messages_example =
    alltoallv_with_envelope-messages split_now 5 (omega arith) split_now-SplitByRank alltoall_now
      alltoall_now-Exchanges three to_both_ends to_both_ends-fits with_source_and_destination
      zero_envelope zero_envelope alltoallv_now alltoallv_now alltoallv_now-Delivers
      alltoallv_now-Delivers

alltoallv-refines_example :
    (grid : ℕ → ReceivedBlocks ℕ) × (direct : ℕ → Alltoallv.Outcome ℕ) × (alltoallv split_now 5
        alltoall_now zero_envelope alltoallv_now
        (record { get_source = 0; get_payload = 0 })
        alltoallv_now
        (λ r. sending (three r) (to_both_ends r))
      ≡ some grid)
    × (Alltoallv.alltoallv 0 5 alltoall_now alltoallv_now
          (λ r. with_defaults (three r) (to_both_ends r))
        ≡ some direct)
    × ((d : ℕ)
        → d < 5
        → ((grid d).recv_buf ≡ (direct d).recv_buf)
          × ((grid d).recv_counts ≡ (direct d).recv_counts)
          × ((grid d).recv_displs ≡ (direct d).recv_displs))
alltoallv-refines_example =
    alltoallv-refines split_now 5 (omega arith) split_now-SplitByRank alltoall_now
      alltoall_now-Exchanges three to_both_ends to_both_ends-fits zero_envelope
      (record { get_source = 0; get_payload = 0 }) alltoallv_now alltoallv_now alltoallv_now
      alltoallv_now-Delivers alltoallv_now-Delivers alltoallv_now-Delivers
