-- ===== src/Sort/Order.antt =====
-- The buckets of the sample sort.
use mathlib.Core.List.{append_assoc, append-nil}
use mping.Prelude.{
  ℕ, zero, suc, ◌+◌, ◌<◌, ◌≡◌, refl, ap, ap₂, sym, ◌∙◌, Bool, true, false, Bool-cases, inl, inr,
  List, [], ◌∷◌, ◌++◌, length, get_elem?, some, get_or, replicate, ◌==◌, arith,
}
use mping.Blocks.{tabulate_from}
use mping.Blocks.Scan.{get_or-tabulate_from}
use mping.Buckets.{bucket}
use mping.Sort.{upper_bound, push_to, bucket_loop, build_buckets}

module _ {ℓ} {A : Type ℓ} (comp : A → A → Bool) where
  -- The buckets from index `k` on, with the elements of a list put into them.
  abbrev with_elements : (A → ℕ) → ℕ → List (List A) → List A → List (List A)
  with_elements key k [] xs = []
  with_elements key k (b ∷ buckets) xs =
      (b ++ bucket key k xs) ∷ with_elements key (suc k) buckets xs

  with_elements-nil :
      (key : A → ℕ) (k : ℕ) (buckets : List (List A)) → with_elements key k buckets [] ≡ buckets
  with_elements-nil key k [] = refl
  with_elements-nil key k (b ∷ buckets) =
      ap₂ ◌∷◌ (append-nil b) (with_elements-nil key (suc k) buckets)

  with_elements-skip :
      (key : A → ℕ) (k : ℕ) (buckets : List (List A)) (x : A) (xs : List A)
      → key x < k
      → with_elements key k buckets (x ∷ xs) ≡ with_elements key k buckets xs
  with_elements-skip key k [] x xs h = refl
  with_elements-skip key k (b ∷ buckets) x xs h =
      ground (arith, with_elements-skip key (suc k) buckets x xs)

  with_elements-push :
      (key : A → ℕ) (k : ℕ) (buckets : List (List A)) (i : ℕ) (x : A) (xs : List A)
      → key x ≡ k + i
      → with_elements key k (push_to comp buckets i x) xs ≡ with_elements key k buckets (x ∷ xs)
  with_elements-push key k [] i x xs e = refl
  with_elements-push key k (b ∷ buckets) zero x xs e = ground (
    arith,
    append_assoc b (x ∷ []) (bucket key k xs),
    with_elements-skip key (suc k) buckets x xs,
  )
  with_elements-push key k (b ∷ buckets) (suc i) x xs e =
      ground (arith, with_elements-push key (suc k) buckets i x xs)

  bucket_loop-with_elements :
      (splitters : List A) (buckets : List (List A)) (xs : List A)
      → bucket_loop comp splitters buckets xs
        ≡ with_elements (upper_bound comp splitters) 0 buckets xs
  bucket_loop-with_elements splitters buckets [] =
      sym (with_elements-nil (upper_bound comp splitters) 0 buckets)
  bucket_loop-with_elements splitters buckets (x ∷ xs) =
      bucket_loop-with_elements splitters (push_to comp buckets (upper_bound comp splitters x) x) xs
      ∙ with_elements-push (upper_bound comp splitters) 0 buckets (upper_bound comp splitters x) x
          xs (omega arith)

  with_elements-empty :
      (key : A → ℕ) (k n : ℕ) (xs : List A)
      → with_elements key k (replicate n []) xs ≡ tabulate_from k n (λ i. bucket key i xs)
  with_elements-empty key k zero xs = refl
  with_elements-empty key k (suc n) xs =
      ap (λ l. bucket key k xs ∷ l) (with_elements-empty key (suc k) n xs)

  -- Bucket `i` has the elements with `i` splitters before them, in order.
  pub build_buckets-bucket :
      (splitters xs : List A)
      → build_buckets comp splitters xs
        ≡ tabulate_from 0 (length splitters + 1) (λ i. bucket (upper_bound comp splitters) i xs)
  unfolding build_buckets
  build_buckets-bucket splitters xs =
      bucket_loop-with_elements splitters (replicate (length splitters + 1) []) xs
      ∙ with_elements-empty (upper_bound comp splitters) 0 (length splitters + 1) xs

  cons-key :
      (key : A → ℕ) (k : ℕ) (y : A) (ys : List A) (x : A) (a : ℕ)
      → key y ≡ k
      → ((b : ℕ) → get_elem? ys b ≡ some x → key x ≡ k)
      → get_elem? (y ∷ ys) a ≡ some x
      → key x ≡ k
  cons-key key k y ys x zero e rest h = let q : y ≡ x = cc in ap key (sym q) ∙ e
  cons-key key k y ys x (suc a) e rest h = rest a h

  -- The elements of a bucket have its key.
  bucket-key :
      (key : A → ℕ) (k : ℕ) (xs : List A) (x : A) (a : ℕ)
      → get_elem? (bucket key k xs) a ≡ some x
      → key x ≡ k
  bucket-key key k [] x a h = absurd cc
  bucket-key key k (y ∷ xs) x a h = elim (Bool-cases (key y == k)) [
    | inl e ↦
        let same : key y ≡ k = ground arith in
        cons-key key k y (bucket key k xs) x a same (λ b. bucket-key key k xs x b) (rw e at h)
    | inr n ↦ bucket-key key k xs x a (rw n at h)
  ]

  -- An element in an earlier position among the splitters is not behind one in a later position.
  upper_bound-order :
      ((a b c : A) → comp a b ≡ true → comp b c ≡ true → comp a c ≡ true)
      → (splitters : List A) (x y : A) → upper_bound comp splitters x < upper_bound comp splitters y
      → comp y x ≡ false
  upper_bound-order trans [] x y h = absurd (omega arith)
  upper_bound-order trans (s ∷ splitters) x y h = elim (Bool-cases (comp x s)) [
    | inl p ↦ elim (Bool-cases (comp y s)) [
      | inl q ↦ absurd (not_less (rw (p, q) at h))
      | inr q ↦ elim (Bool-cases (comp y x)) [
        | inl r ↦ absurd (true_false (sym (trans y x s r p) ∙ q))
        | inr r ↦ r
      ]
    ]
    | inr p ↦ elim (Bool-cases (comp y s)) [
      | inl q ↦ absurd (none_below (rw (p, q) at h))
      | inr q ↦ upper_bound-order trans splitters x y (one_less (rw (p, q) at h))
    ]
  ]
    where
      not_less : 0 < 0 → ⊥
      not_less h = absurd (omega arith)

      none_below : {n : ℕ} → suc n < 0 → ⊥
      none_below h = absurd (omega arith)

      one_less : {m n : ℕ} → suc m < suc n → m < n
      one_less h = omega arith

      true_false : true ≡ false → ⊥
      true_false e = absurd cc

  bucket_at :
      (splitters xs : List A) (i : ℕ)
      → i < length splitters + 1
      → get_or (build_buckets comp splitters xs) i [] ≡ bucket (upper_bound comp splitters) i xs
  bucket_at splitters xs i h =
      ap (λ l. get_or l i []) (build_buckets-bucket splitters xs)
      ∙ get_or-tabulate_from 0 (length splitters + 1)
          (λ i. bucket (upper_bound comp splitters) i xs) i [] h
      ∙ (let e : 0 + i ≡ i = omega arith in ap (λ i. bucket (upper_bound comp splitters) i xs) e)

  -- For a transitive comparison and one list of splitters, an element of an earlier bucket is never
  -- behind an element of a later bucket in the order of the comparison, also when the buckets are
  -- built from the elements of two ranks.
  pub build_buckets-order :
      ((a b c : A) → comp a b ≡ true → comp b c ≡ true → comp a c ≡ true)
      → (splitters xs ys : List A) (i j : ℕ) → i < j
      → j < length splitters + 1
      → (x y : A) (a b : ℕ) → get_elem? (get_or (build_buckets comp splitters xs) i []) a ≡ some x
      → get_elem? (get_or (build_buckets comp splitters ys) j []) b ≡ some y
      → comp y x ≡ false
  build_buckets-order trans splitters xs ys i j l h x y a b m n =
      let p =
        bucket-key (upper_bound comp splitters) i xs x a
          (sym (ap (λ l. get_elem? l a) (bucket_at splitters xs i (omega arith))) ∙ m) in
      let q =
        bucket-key (upper_bound comp splitters) j ys y b
          (sym (ap (λ l. get_elem? l b) (bucket_at splitters ys j h)) ∙ n) in
      upper_bound-order trans splitters x y (omega (arith, p, q))
