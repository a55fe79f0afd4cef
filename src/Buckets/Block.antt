-- ===== src/Buckets/Block.antt =====
-- Each block that the loops leave, read back at its position.
use mathlib.Core.List.{map-append, append-nil}
use mping.Prelude.{
  ℕ, zero, suc, ◌+◌, ◌<◌, ◌≡◌, refl, ap, ap₂, sym, ◌∙◌, List, [], ◌∷◌, ◌++◌, map, get_or, length,
  length-map, replicate, length-replicate, sum, exclusive_scan, arith,
}
use mping.Blocks.{slice, concat, lengths, tabulate_from}
use mping.Blocks.Scan.{slice-concat, get_or-tabulate_from, length-tabulate_from}
use mping.Buckets.{increment, count_loop, place_loop, bucket, buckets_from, sizes_from, Keys}
use mping.Buckets.Placed.{place_loop-buckets, count_loop-sizes}

module _ {ℓ κ} {A : Type ℓ} {B : Type κ} (key : A → ℕ) (f : A → B) where
  abbrev blocks : ℕ → ℕ → List A → List (List B)
  blocks k m xs = tabulate_from k m (λ i. map f (bucket key i xs))

  concat-blocks : (k m : ℕ) (xs : List A) → concat (blocks k m xs) ≡ map f (buckets_from key k m xs)
  concat-blocks k zero xs = refl
  concat-blocks k (suc m) xs =
      ap (◌++◌ (map f (bucket key k xs))) (concat-blocks (suc k) m xs) ∙ sym (map-append _ _ _)

  lengths-blocks : (k m : ℕ) (xs : List A) → lengths (blocks k m xs) ≡ sizes_from key k m xs
  lengths-blocks k zero xs = refl
  lengths-blocks k (suc m) xs =
      ap₂ ◌∷◌ (length-map (bucket key k xs) f) (lengths-blocks (suc k) m xs)

  -- Block `j` of the buffer holds the elements with key `j`, in order.
  pub place_loop-block :
      (blank : B) (m : ℕ) (xs : List A) (j : ℕ)
      → Keys key m xs
      → j < m
      → let counts = sizes_from key 0 m xs in
        slice
          (place_loop key f (exclusive_scan 0 counts) (replicate (sum counts) blank) xs)
          (get_or (exclusive_scan 0 counts) j 0)
          (get_or counts j 0)
        ≡ map f (bucket key j xs)
  place_loop-block blank m xs j ks h =
      ap (λ b. slice b (get_or (exclusive_scan 0 counts) j 0) (get_or counts j 0))
        (place_loop-buckets key f blank m xs ks ∙ sym (concat-blocks 0 m xs) ∙ sym (append-nil _))
      ∙ ap
          (λ cs.
            slice (concat (blocks 0 m xs) ++ []) (get_or (exclusive_scan 0 cs) j 0) (get_or cs j 0))
          (sym (lengths-blocks 0 m xs))
      ∙ slice-concat (blocks 0 m xs) [] j
          (omega (arith, length-tabulate_from 0 m (λ i. map f (bucket key i xs))))
      ∙ get_or-tabulate_from 0 m (λ i. map f (bucket key i xs)) j [] h
      ∙ (let e : 0 + j ≡ j = omega arith in ap (λ i. map f (bucket key i xs)) e)
    where
      counts : List ℕ
      counts = sizes_from key 0 m xs

module _ {ℓ} {A : Type ℓ} (key : A → ℕ) where
  sum-increment : (cs : List ℕ) (i : ℕ) → i < length cs → sum (increment cs i) ≡ suc (sum cs)
  sum-increment [] i h = absurd (omega arith)
  sum-increment (c ∷ cs) zero h = omega arith
  sum-increment (c ∷ cs) (suc i) h = omega (arith, sum-increment cs i (omega arith))

  length-increment : (cs : List ℕ) (i : ℕ) → length (increment cs i) ≡ length cs
  length-increment [] i = refl
  length-increment (c ∷ cs) zero = refl
  length-increment (c ∷ cs) (suc i) = ap suc (length-increment cs i)

  sum-count_loop :
      (m : ℕ) (cs : List ℕ) (xs : List A)
      → m ≡ length cs
      → Keys key m xs
      → sum (count_loop key cs xs) ≡ sum cs + length xs
  unfolding count_loop
  sum-count_loop m cs [] e ks = omega arith
  sum-count_loop m cs (x ∷ xs) e ks = omega (
    arith,
    sum-increment cs (key x) (omega (arith, ks.0)),
    sum-count_loop m (increment cs (key x)) xs (omega (arith, length-increment cs (key x))) ks.1,
  )

  sum-zeros : (m : ℕ) → sum (replicate m 0) ≡ 0
  sum-zeros zero = refl
  sum-zeros (suc m) = omega (arith, sum-zeros m)

  -- Every element is in one of the blocks.
  pub sum-sizes : (m : ℕ) (xs : List A) → Keys key m xs → sum (sizes_from key 0 m xs) ≡ length xs
  sum-sizes m xs ks =
      ap sum (sym (count_loop-sizes key m xs))
      ∙ omega (
        arith,
        sum-count_loop m (replicate m 0) xs (omega (arith, length-replicate {A = ℕ} m 0)) ks,
        sum-zeros m,
      )

  -- The loop over a list in two parts.
  pub count_loop-append :
      (cs : List ℕ) (xs ys : List A)
      → count_loop key cs (xs ++ ys) ≡ count_loop key (count_loop key cs xs) ys
  unfolding count_loop
  count_loop-append cs [] ys = refl
  count_loop-append cs (x ∷ xs) ys = count_loop-append (increment cs (key x)) xs ys
