-- ===== src/Blocks/Scan.antt =====
-- Blocks at the exclusive prefix sums of their lengths lie one after the other.
use mathlib.Core.List.{append_assoc, append-nil}
use mping.Prelude.{
  ℕ, zero, suc, ◌+◌, ◌-◌, ◌*◌, ◌≤◌, ◌<◌, ◌≡◌, refl, ap, ap₂, sym, ◌∙◌, List, [], ◌∷◌, ◌++◌, take,
  drop, length, length-append, length-take, length-drop, replicate, length-replicate, sum,
  exclusive_scan, get_or, arith,
}
use mping.Blocks.{slice, write_at, write_all, concat, lengths, resize, tabulate_from}

module _ {ℓ} {A : Type ℓ} where
  take-append_length :
      (xs ys : List A) (n k : ℕ) → n ≡ length xs + k → take n (xs ++ ys) ≡ xs ++ take k ys
  take-append_length [] ys n k e = ap (λ j. take j ys) e'
    where
      e' : n ≡ k
      e' = omega arith
  take-append_length (x ∷ xs) ys zero k e = absurd (omega arith)
  take-append_length (x ∷ xs) ys (suc n) k e =
      ap (λ r. x ∷ r) (take-append_length xs ys n k (omega arith))

  pub drop-append_length :
      (xs ys : List A) (n k : ℕ) → n ≡ length xs + k → drop n (xs ++ ys) ≡ drop k ys
  drop-append_length [] ys n k e = ap (λ j. drop j ys) e'
    where
      e' : n ≡ k
      e' = omega arith
  drop-append_length (x ∷ xs) ys zero k e = absurd (omega arith)
  drop-append_length (x ∷ xs) ys (suc n) k e = drop-append_length xs ys n k (omega arith)

  pub length-concat : (blocks : List (List A)) → length (concat blocks) ≡ sum (lengths blocks)
  length-concat [] = refl
  length-concat (b ∷ blocks) = omega (arith, length-append b (concat blocks), length-concat blocks)

  drop-drop : (m n : ℕ) (xs : List A) → drop m (drop n xs) ≡ drop (n + m) xs
  drop-drop m zero xs = let e : m ≡ 0 + m = omega arith in ap (λ j. drop j xs) e
  drop-drop m (suc n) [] = drop-nil m ∙ sym (drop-nil (suc n + m))
    where
      drop-nil : (k : ℕ) → drop {A = A} k [] ≡ []
      drop-nil zero = refl
      drop-nil (suc k) = refl
  drop-drop m (suc n) (x ∷ xs) =
      drop-drop m n xs
      ∙ (let e : suc (n + m) ≡ suc n + m = omega arith in ap (λ j. drop j (x ∷ xs)) e)

  pub write_at-behind :
      (b done rest : List A)
      → write_at (length done) b (done ++ rest) ≡ (done ++ b) ++ drop (length b) rest
  write_at-behind b done rest =
      ap₂ (λ xs ys. xs ++ (b ++ ys)) (take-append_length done rest (length done) 0 (omega arith))
        (drop-append_length done rest (length done + length b) (length b) (omega arith))
      ∙ rw (append-nil, append_assoc)

  -- Blocks written one after the other, behind what stands there.
  write_all-behind :
      (blocks : List (List A)) (done rest : List A)
      → write_all (exclusive_scan (length done) (lengths blocks)) blocks (done ++ rest)
        ≡ done ++ (concat blocks ++ drop (sum (lengths blocks)) rest)
  write_all-behind [] done rest = refl
  write_all-behind (b ∷ blocks) done rest =
      ap₂ (λ base buffer. write_all (exclusive_scan base (lengths blocks)) blocks buffer)
        (sym (length-append done b)) (write_at-behind b done rest)
      ∙ write_all-behind blocks (done ++ b) (drop (length b) rest)
      ∙ rw (drop-drop (sum (lengths blocks)) (length b) rest, append_assoc, append_assoc)

  slice-behind :
      (blocks : List (List A)) (done rest : List A) (i : ℕ)
      → i < length blocks
      → slice
          (done ++ (concat blocks ++ rest))
          (get_or (exclusive_scan (length done) (lengths blocks)) i 0)
          (get_or (lengths blocks) i 0)
        ≡ get_or blocks i []
  slice-behind [] done rest i h = absurd (omega arith)
  slice-behind (b ∷ blocks) done rest zero h =
      rw
        (
          drop-append_length done (b ++ concat blocks ++ rest) (length done) 0 (omega arith),
          append_assoc,
        )
        (take-append_length b (concat blocks ++ rest) (length b) 0 (omega arith) ∙ append-nil b)
  slice-behind (b ∷ blocks) done rest (suc i) h =
      ap₂
        (λ base buffer.
          slice buffer (get_or (exclusive_scan base (lengths blocks)) i 0)
            (get_or (lengths blocks) i 0))
        (sym (length-append done b)) (rw (append_assoc, append_assoc))
      ∙ slice-behind blocks (done ++ b) rest i (omega arith)

  -- Written at the exclusive prefix sums of their lengths, the blocks lie one after the other at the
  -- start of the buffer, and what stands behind them is left.
  pub write_all-scan :
      (blocks : List (List A)) (buffer : List A)
      → write_all (exclusive_scan 0 (lengths blocks)) blocks buffer
        ≡ concat blocks ++ drop (sum (lengths blocks)) buffer
  write_all-scan blocks buffer = write_all-behind blocks [] buffer

  -- The slice of block `i` in blocks that lie one after the other is the block.
  pub slice-concat :
      (blocks : List (List A)) (rest : List A) (i : ℕ)
      → i < length blocks
      → slice
          (concat blocks ++ rest)
          (get_or (exclusive_scan 0 (lengths blocks)) i 0)
          (get_or (lengths blocks) i 0)
        ≡ get_or blocks i []
  slice-concat blocks rest i h = slice-behind blocks [] rest i h

  pub length-lengths : (blocks : List (List A)) → length (lengths blocks) ≡ length blocks
  length-lengths [] = refl
  length-lengths (b ∷ blocks) = ap suc (length-lengths blocks)

  pub get_or-lengths :
      (blocks : List (List A)) (i : ℕ) → get_or (lengths blocks) i 0 ≡ length (get_or blocks i [])
  get_or-lengths [] i = refl
  get_or-lengths (b ∷ blocks) zero = refl
  get_or-lengths (b ∷ blocks) (suc i) = get_or-lengths blocks i

  pub length-resize : (blank : A) (n : ℕ) (xs : List A) → length (resize blank n xs) ≡ n
  length-resize blank n xs = omega (
    arith,
    length-append (take n xs) (replicate (n - length xs) blank),
    length-take n xs,
    length-replicate (n - length xs) blank,
  )

  pub length-tabulate_from : (k n : ℕ) (f : ℕ → A) → length (tabulate_from k n f) ≡ n
  length-tabulate_from k zero f = refl
  length-tabulate_from k (suc n) f = ap suc (length-tabulate_from (suc k) n f)

  pub get_or-tabulate_from :
      (k n : ℕ) (f : ℕ → A) (i : ℕ) (d : A) → i < n → get_or (tabulate_from k n f) i d ≡ f (k + i)
  get_or-tabulate_from k zero f i d h = absurd (omega arith)
  get_or-tabulate_from k (suc n) f zero d h = let e : k ≡ k + 0 = omega arith in ap f e
  get_or-tabulate_from k (suc n) f (suc i) d h =
      get_or-tabulate_from (suc k) n f i d (omega arith)
      ∙ (let e : suc k + i ≡ k + suc i = omega arith in ap f e)

  pub tabulate_from-ext :
      (k n : ℕ) (f g : ℕ → A)
      → ((i : ℕ) → i < k + n → f i ≡ g i)
      → tabulate_from k n f ≡ tabulate_from k n g
  tabulate_from-ext k zero f g h = refl
  tabulate_from-ext k (suc n) f g h =
      ap₂ ◌∷◌ (h k (omega arith)) (tabulate_from-ext (suc k) n f g (λ i l. h i (omega arith)))

  pub length-slice :
      (xs : List A) (offset count : ℕ)
      → offset + count ≤ length xs
      → length (slice xs offset count) ≡ count
  length-slice xs offset count h =
      omega (arith, length-take count (drop offset xs), length-drop offset xs)

  pub slice-one : (xs : List A) (i : ℕ) (d : A) → i < length xs → slice xs i 1 ≡ get_or xs i d ∷ []
  slice-one [] i d h = absurd (omega arith)
  slice-one (x ∷ xs) zero d h = refl
  slice-one (x ∷ xs) (suc i) d h = slice-one xs i d (omega arith)

  pub concat-singletons :
      (k n : ℕ) (f : ℕ → A) → concat (tabulate_from k n (λ j. f j ∷ [])) ≡ tabulate_from k n f
  concat-singletons k zero f = refl
  concat-singletons k (suc n) f = ap (λ r. f k ∷ r) (concat-singletons (suc k) n f)

  pub lengths-tabulate_from :
      (k n : ℕ) (f : ℕ → List A)
      → lengths (tabulate_from k n f) ≡ tabulate_from k n (λ j. length (f j))
  lengths-tabulate_from k zero f = refl
  lengths-tabulate_from k (suc n) f = ap (λ r. length (f k) ∷ r) (lengths-tabulate_from (suc k) n f)

  pub length-concat-uniform :
      (n k m : ℕ) (f : ℕ → List A)
      → ((j : ℕ) → j < k + m → length (f j) ≡ n)
      → length (concat (tabulate_from k m f)) ≡ n * m
  length-concat-uniform n k zero f h = omega arith
  length-concat-uniform n k (suc m) f h = omega (
    arith,
    length-append (f k) (concat (tabulate_from (suc k) m f)),
    h k (omega arith),
    length-concat-uniform n (suc k) m f (λ j l. h j (omega arith)),
  )
