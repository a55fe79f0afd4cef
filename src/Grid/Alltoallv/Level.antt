-- ===== src/Grid/Alltoallv/Level.antt =====
-- What a rank gets from the exchange within its row or its column.
use mping.Prelude.{
  subst, ℕ, zero, suc, ◌<◌, ◌≡◌, refl, ap, sym, ◌∙◌, false, true, List, length, get_or,
  exclusive_scan, length-exclusive_scan, ◌==◌, ==_refl, Option, some, if◌then◌else◌, arith,
  ℕ_discrete,
}
use mping.Blocks.{slice, concat, tabulate_from}
use mping.Blocks.Scan.{tabulate_from-ext}
use mping.Collectives.{given}
use mping.Collectives.Buffers.{all_below-true}
use mping.Collectives.Alltoall.{MpiAlltoall, Exchanges}
use mping.Collectives.Alltoallv.{MpiAlltoallv}
use mping.Collectives.Alltoallv.Delivery.{alltoallv-laid_out}
use mping.Collectives.Alltoallv.Calls.{Delivers}
use mping.Grid.{Split}
use mping.Grid.Members.{members, length-members}
use mping.Grid.Places.{index_of, members-at, count-lt, index_of-members}
use mping.Grid.Routing.{SplitByRank}
use mping.Grid.Exchange.{Outgoing}
use mping.Grid.Exchange.Sent.{block_of}
use mping.Grid.Exchange.Fitting.{IsOutgoing}
use mping.Grid.Alltoallv.{each_rank, level_args, level_exchange}

pub each_rank-some {κ} :
    {B : Type κ} (blank : B) (n : ℕ) (f : ℕ → Option B) (g : ℕ → B)
    → ((r : ℕ) → r < n → f r ≡ some (g r))
    → (h : ℕ → B) × (each_rank blank n f ≡ some h) × ((r : ℕ) → r < n → h r ≡ g r)
each_rank-some blank zero f g each = (λ r. blank, refl, λ r l. absurd (omega arith))
each_rank-some blank (suc n) f g each =
    let (before, e, same) = each_rank-some blank n f g (λ r l. each r (omega arith)) in
    (
      λ r. if r == n then g n else before r,
      rw (e, each n (omega arith)) refl,
      λ r l. elim (ℕ_discrete r n) [
        | yes y ↦ rw (y, ==_refl n) refl
        | no other ↦
            let no_last : (r == n) ≡ false = ground arith in rw no_last (same r (omega arith))
      ],
    )

module _ {κ} (split : Split) (size : ℕ) (law : SplitByRank split) (mpi : MpiAlltoall ℕ)
    (exchanges : Exchanges mpi) {B : Type κ} (blank : B) (mpi_v : MpiAlltoallv B)
    (delivers : Delivers mpi_v) (color : ℕ → ℕ) (outgoing : ℕ → Outgoing B)
    (each : (r : ℕ)
      → r < size
      → IsOutgoing (length (members color (color r) size)) (outgoing r)) where
  abbrev pub group : ℕ → List ℕ
  group rank = members color (color rank) size

  abbrev pub level_received : ℕ → List B
  level_received rank = concat (
      tabulate_from 0 (length (group rank))
        (λ j. block_of (outgoing (get_or (group rank) j 0)) (index_of (group rank) rank)))

  member :
      (rank j : ℕ)
      → j < length (group rank)
      → IsOutgoing (length (group rank)) (outgoing (get_or (group rank) j 0))
  member rank j l =
      let (inside, same, place) = members-at color (color rank) size j l in
      subst (λ c. IsOutgoing (length (members color c size)) (outgoing (get_or (group rank) j 0)))
        same (each (get_or (group rank) j 0) inside)

  pub index-lt : (rank : ℕ) → rank < size → index_of (group rank) rank < length (group rank)
  index-lt rank l = omega (
    arith,
    index_of-members color rank size l,
    count-lt color rank size l,
    length-members color (color rank) size,
  )

  pub level_exchange-blocks :
      (rank : ℕ)
      → rank < size
      → level_exchange split size mpi blank mpi_v color outgoing rank ≡ some (level_received rank)
  unfolding level_exchange level_args
  level_exchange-blocks rank l =
      let n = length (group rank) in
      let at = λ (j : ℕ). outgoing (get_or (group rank) j 0) in
      let i = index_of (group rank) rank in
      let (res, e, values) =
        alltoallv-laid_out blank n (omega (arith, index-lt rank l)) (λ j. given (at j).send_displs)
          (λ j. (at j).send_buf) (λ j. (at j).send_counts)
          (λ j h. record {
            scan = (member rank j h).scan;
            room = omega (
              arith,
              ap length (member rank j h).scan,
              length-exclusive_scan 0 (at j).send_counts,
              (member rank j h).one_each,
            );
          })
          (all_below-true n (λ r. true) (λ r h. refl))
          (λ j h. ((member rank j h).one_each, (member rank j h).room)) mpi mpi_v exchanges
          delivers in
      rw (law color size rank l, e)
        (ap some (
          (values i (index-lt rank l)).0
          ∙ ap concat (
              tabulate_from-ext 0 n
                (λ j.
                  slice (at j).send_buf (get_or (exclusive_scan 0 (at j).send_counts) i 0)
                    (get_or (at j).send_counts i 0))
                (λ j. block_of (at j) i)
                (λ j h.
                  ap (λ ds. slice (at j).send_buf (get_or ds i 0) (get_or (at j).send_counts i 0))
                    (sym (member rank j (omega arith)).scan)))))
