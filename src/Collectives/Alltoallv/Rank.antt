-- ===== src/Collectives/Alltoallv/Rank.antt =====
-- One rank of `alltoallv`, with the counts that it received.
use mping.Prelude.{
  ℕ, ◌-◌, ◌<◌, ◌≤◌, ◌≡◌, ap, sym, ◌∙◌, true, List, [], length, take-all, sum, exclusive_scan,
  length-exclusive_scan, last-exclusive_scan, arith,
}
use mping.Blocks.Scan.{length-resize}
use mping.Collectives.{Param, compute_required_recv_buf_size}
use mping.Collectives.Buffers.{filled-resized, length-sized}
use mping.Collectives.RequiredSize.{required_size-agree}
use mping.Collectives.Alltoallv.{
  send_displs_of, recv_displs_of, required_recv_buf_size, recv_buf_of, buffers_suffice,
}
use mping.Collectives.Alltoallv.Calls.{with_params, IsLaidOut}

-- One rank, with the counts that it received.
module _ {ℓ} {A : Type ℓ} (blank : A) (p : ℕ) (positive : 0 < p) (sd : Param) (sb : List A)
    (sc counts : List ℕ) (laid_out : IsLaidOut p sd sc) (sc_len : length sc ≡ p)
    (counts_len : length counts ≡ p) (room : sum sc ≤ length sb) where
  pub send_displs-scan : send_displs_of blank p (with_params sd sb sc) ≡ exclusive_scan 0 sc
  unfolding send_displs_of
  send_displs-scan = rw (take-all sc p (omega arith)) laid_out.scan

  pub recv_displs-scan :
      recv_displs_of blank p (with_params sd sb sc) counts ≡ exclusive_scan 0 counts
  unfolding recv_displs_of
  recv_displs-scan = rw (take-all counts p (omega arith)) (
      filled-resized p [] (exclusive_scan 0 counts) (omega (arith, length-exclusive_scan 0 counts)))

  required-sum : required_recv_buf_size blank p (with_params sd sb sc) counts ≡ sum counts
  unfolding required_recv_buf_size
  required-sum = rw recv_displs-scan (
      (ap (λ n. compute_required_recv_buf_size true counts (exclusive_scan 0 counts) n)
        (sym counts_len))
      ∙ (required_size-agree counts (omega arith)).0)

  pub length-recv_buf : length (recv_buf_of blank p (with_params sd sb sc) counts) ≡ sum counts
  unfolding recv_buf_of
  length-recv_buf = length-resize blank _ [] ∙ required-sum

  pub suffice : buffers_suffice blank p (with_params sd sb sc) counts ≡ true
  unfolding buffers_suffice
  suffice =
      rw (send_displs-scan, required-sum, length-recv_buf, length-sized p [])
        (ground (arith, last-exclusive_scan 0 sc (p - 1), laid_out.room))
