-- ===== src/Collectives/RequiredSize.antt =====
-- The size of a receive buffer: the short cut for displacements that the library calculated agrees with
-- the search over all blocks.
use mping.Prelude.{
  ℕ, zero, suc, ◌+◌, ◌-◌, ◌<◌, ◌≤◌, ◌≡◌, true, false, List, [], ◌∷◌, length, max, get_or, sum,
  exclusive_scan, arith, length-exclusive_scan, last-exclusive_scan, take-all,
}
use mping.Collectives.{max_end, compute_required_recv_buf_size}

max_end-ge : (acc : ℕ) (counts displs : List ℕ) → acc ≤ max_end acc counts displs
unfolding max_end
max_end-ge acc [] displs = omega arith
max_end-ge acc (c ∷ counts) [] = omega (arith, max_end-ge (max acc c) counts [])
max_end-ge acc (c ∷ counts) (d ∷ displs) = omega (arith, max_end-ge (max acc (c + d)) counts displs)

-- Every block ends at most at the result.
max_end-block :
    (acc : ℕ) (counts displs : List ℕ) (i : ℕ)
    → length displs ≡ length counts
    → i < length counts
    → get_or counts i 0 + get_or displs i 0 ≤ max_end acc counts displs
unfolding max_end
max_end-block acc [] displs i e h = absurd (omega arith)
max_end-block acc (c ∷ counts) [] i e h = absurd (omega arith)
max_end-block acc (c ∷ counts) (d ∷ displs) zero e h =
    omega (arith, max_end-ge (max acc (c + d)) counts displs)
max_end-block acc (c ∷ counts) (d ∷ displs) (suc i) e h =
    max_end-block (max acc (c + d)) counts displs i (omega arith) (omega arith)

max_end-least :
    (acc n : ℕ) (counts displs : List ℕ)
    → length displs ≡ length counts
    → acc ≤ n
    → ((i : ℕ) → i < length counts → get_or counts i 0 + get_or displs i 0 ≤ n)
    → max_end acc counts displs ≤ n
unfolding max_end
max_end-least acc n [] displs e h each = h
max_end-least acc n (c ∷ counts) [] e h each = absurd (omega arith)
max_end-least acc n (c ∷ counts) (d ∷ displs) e h each =
    max_end-least (max acc (c + d)) n counts displs (omega arith)
      (omega (arith, each 0 (omega arith))) (λ i l. each (suc i) (omega arith))

-- With prefix sums from `base` on, the search ends at the end of the last block.
max_end-scan :
    (base : ℕ) (counts : List ℕ)
    → max_end base counts (exclusive_scan base counts) ≡ base + sum counts
unfolding max_end
max_end-scan base [] = omega arith
max_end-scan base (c ∷ counts) =
    let e : max base (c + base) ≡ base + c = omega arith in
    rw e (omega (arith, max_end-scan (base + c) counts))

-- For displacements that are the prefix sums of the counts, which are not empty, both ways to
-- compute the required size of the receive buffer give the sum of the counts.
pub required_size-agree :
    (counts : List ℕ)
    → 0 < length counts
    → let displs = exclusive_scan 0 counts in
      (compute_required_recv_buf_size true counts displs (length counts) ≡ sum counts)
      × (compute_required_recv_buf_size false counts displs (length counts) ≡ sum counts)
unfolding compute_required_recv_buf_size
required_size-agree counts h = (
  omega (arith, last-exclusive_scan 0 counts (length counts - 1) (omega arith)),
  rw
      (
        take-all counts (length counts) (omega arith),
        take-all (exclusive_scan 0 counts) (length counts)
            (omega (arith, length-exclusive_scan 0 counts)),
      )
      (omega (arith, max_end-scan 0 counts)),
)

-- For displacements given by the caller, one for each count, the required size of the receive
-- buffer is the least one that holds every block, in whatever order the blocks lie.
pub required_size-least :
    (counts displs : List ℕ)
    → length displs ≡ length counts
    → let size = compute_required_recv_buf_size false counts displs (length counts) in
      ((i : ℕ) → i < length counts → get_or counts i 0 + get_or displs i 0 ≤ size)
      × ((n : ℕ)
          → ((i : ℕ) → i < length counts → get_or counts i 0 + get_or displs i 0 ≤ n)
          → size ≤ n)
unfolding compute_required_recv_buf_size
required_size-least counts displs e =
    rw
      (take-all counts (length counts) (omega arith), take-all displs (length counts) (omega arith))
      (
        λ i h. max_end-block 0 counts displs i e h,
        λ n each. max_end-least 0 n counts displs e (omega arith) each,
      )
