-- ===== src/Grid/Exchange/Received.antt =====
-- How a rank orders the elements that the two exchanges have brought to it.
use mping.Prelude.{
  Option, true, ℕ, zero, suc, ◌-◌, ◌<◌, ◌≡◌, refl, ap, ◌∙◌, List, [], map, some, length, replicate,
  length-replicate, sum, exclusive_scan, length-exclusive_scan, kassert, leb, ◌>>◌, arith,
}
use mping.Blocks.{resize}
use mping.Buckets.Inside.{places_inside-scan}
use mping.Buckets.{count_loop, place_loop, places_inside, sizes_from, buckets_from, Keys}
use mping.Buckets.Placed.{count_loop-sizes, length-sizes}
use mping.Buckets.Placed.{place_loop-buckets}
use mping.Collectives.{resize_to_fit, resize_if_requested, out}
use mping.Grid.Exchange.{
  SourceEnvelope, recv_displs_of, recv_counts_of, write_recv_buffer, post_process,
}
use mping.Blocks.Scan.{length-resize}
use mping.Collectives.Buffers.{write_at-whole}
use mping.Grid.Exchange.Sent.{back-sum}

leb_refl : (n : ℕ) → leb n n ≡ true
leb_refl n = ground arith

resize-empty {ℓ} : {A : Type ℓ} (blank : A) (n : ℕ) → resize blank n [] ≡ replicate n blank
resize-empty blank zero = refl
resize-empty blank (suc n) =
    let e : suc n - 0 ≡ suc n = omega arith in ap (λ k. replicate k blank) e

displs_room : (size : ℕ) → length {A = ℕ} (resize_if_requested resize_to_fit 0 size []) ≡ size
displs_room size = length-resize 0 size []

recv_displs_of-scanned :
    (size : ℕ) (counts : List ℕ)
    → length counts ≡ size
    → recv_displs_of size (out resize_to_fit []) counts ≡ some (exclusive_scan 0 counts)
recv_displs_of-scanned size counts e = ground (
  arith,
  displs_room size,
  write_at-whole (exclusive_scan 0 counts) (resize_if_requested resize_to_fit 0 size [])
      (omega (arith, displs_room size, length-exclusive_scan 0 counts)),
)

module _ {ℓ} {A : Type ℓ} where
  recv_counts_of-counted :
      (size : ℕ) (received : List (SourceEnvelope A))
      → recv_counts_of size (out resize_to_fit []) received
        ≡ some (sizes_from (λ e. e.get_source) 0 size received)
  recv_counts_of-counted size received =
      ap
        (λ n.
          kassert (leb size n)
          >> some (count_loop (λ (e : SourceEnvelope A). e.get_source) (replicate n 0) received))
        (displs_room size)
      ∙ ap (λ cs. kassert (leb size size) >> some cs)
          (count_loop-sizes (λ e. e.get_source) size received)
      ∙ ground arith

  write_recv_buffer-buckets :
      (size : ℕ) (blank : A) (received : List (SourceEnvelope A))
      → 0 < size
      → Keys (λ e. e.get_source) size received
      → let counts = sizes_from (λ (e : SourceEnvelope A). e.get_source) 0 size received in
        write_recv_buffer resize_to_fit blank [] counts (exclusive_scan 0 counts) received
        ≡ some (map (λ e. e.get_payload) (buckets_from (λ e. e.get_source) 0 size received))
  unfolding write_recv_buffer
  write_recv_buffer-buckets size blank received h ks =
      let counts = sizes_from (λ (e : SourceEnvelope A). e.get_source) 0 size received in
      ap (λ n. placed_in counts n (resize_if_requested resize_to_fit blank n []))
        (back-sum (size - 1) counts
          (omega (arith, length-sizes (λ (e : SourceEnvelope A). e.get_source) 0 size received)))
      ∙ ap (placed_in counts (sum counts)) (resize-empty blank (sum counts))
      ∙ rw
          (
            length-replicate (sum counts) blank,
            leb_refl (sum counts),
            places_inside-scan (λ (e : SourceEnvelope A). e.get_source) size received ks,
          )
          (ap some
            (place_loop-buckets (λ e. e.get_source) (λ e. e.get_payload) blank size received ks))
    where
      placed_in : List ℕ → ℕ → List A → Option (List A)
      placed_in counts n buffer =
          kassert (leb n (length buffer))
          >> (kassert (
                places_inside (λ (e : SourceEnvelope A). e.get_source) (length buffer)
                  (exclusive_scan 0 counts) received)
              >> some (
                  place_loop (λ (e : SourceEnvelope A). e.get_source) (λ e. e.get_payload)
                    (exclusive_scan 0 counts) buffer received))

  -- With the default parameters for what it receives, and elements whose sources are ranks of a
  -- communicator that is not empty, a rank of the grid's `alltoallv` gets the elements ordered by
  -- their source, those of one source in the order in which they came, with the number of elements
  -- of each source and the prefix sums of these numbers.
  pub post_process-ordered :
      (size : ℕ) (blank : A) (received : List (SourceEnvelope A))
      → 0 < size
      → Keys (λ e. e.get_source) size received
      → let counts = sizes_from (λ (e : SourceEnvelope A). e.get_source) 0 size received in
        post_process size
          (out resize_to_fit [])
          (out resize_to_fit [])
          resize_to_fit
          blank
          []
          received
        ≡ some (record {
          recv_buf = map (λ e. e.get_payload) (buckets_from (λ e. e.get_source) 0 size received);
          recv_counts = counts;
          recv_displs = exclusive_scan 0 counts;
        })
  unfolding post_process
  post_process-ordered size blank received h ks =
      rw
        (
          recv_counts_of-counted size received,
          recv_displs_of-scanned size (sizes_from (λ e. e.get_source) 0 size received)
              (length-sizes (λ e. e.get_source) 0 size received),
          write_recv_buffer-buckets size blank received h ks,
        )
        refl
