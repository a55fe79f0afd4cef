-- ===== src/Buckets/Placed.antt =====
-- What the loops leave in a buffer that has room for every element.
use mathlib.Core.List.{append_assoc, map-append, append-nil}
use mping.Prelude.{
  ℕ, zero, suc, ◌+◌, ◌-◌, ◌<◌, ◌≤◌, ◌≡◌, refl, ap, ap₂, sym, ◌∙◌, List, [], ◌∷◌, ◌++◌, map, length,
  replicate, replicate-append, sum, exclusive_scan, arith,
}
use mping.Buckets.{increment, count_loop, place_loop, bucket, buckets_from, sizes_from, Keys}
use mping.Buckets.Layout.{flat, positions, push, HasRoom, positions-push, set-position}

module _ {ℓ} {A : Type ℓ} (key : A → ℕ) where
  -- A layout from block `k` on, with the elements of a list put into their blocks.
  abbrev filled_with : ℕ → List (List A × ℕ) → List A → List (List A × ℕ)
  filled_with k [] xs = []
  filled_with k ((filled, room) ∷ l) xs =
      (filled ++ bucket key k xs, room - length (bucket key k xs)) ∷ filled_with (suc k) l xs

  abbrev Enough : ℕ → List (List A × ℕ) → List A → Type 0
  Enough k [] xs = Unit {0}
  Enough k ((filled, room) ∷ l) xs = (length (bucket key k xs) ≤ room) × Enough (suc k) l xs

  -- An element that belongs to no block from `k` on.
  filled_with-skip :
      (k : ℕ) (l : List (List A × ℕ)) (x : A) (xs : List A)
      → key x < k
      → filled_with k l (x ∷ xs) ≡ filled_with k l xs
  filled_with-skip k [] x xs h = refl
  filled_with-skip k ((filled, room) ∷ l) x xs h = ground (arith, filled_with-skip (suc k) l x xs)

  Enough-skip :
      (k : ℕ) (l : List (List A × ℕ)) (x : A) (xs : List A)
      → key x < k
      → Enough k l (x ∷ xs)
      → Enough k l xs
  Enough-skip k [] x xs h e = tt
  Enough-skip k ((filled, room) ∷ l) x xs h e = ground (arith, Enough-skip (suc k) l x xs)

  -- One step of the loop, for the element's block `i` counted from `k`.
  filled_with-push :
      (k : ℕ) (l : List (List A × ℕ)) (i : ℕ) (x : A) (xs : List A)
      → key x ≡ k + i
      → filled_with k (push l i x) xs ≡ filled_with k l (x ∷ xs)
  filled_with-push k [] i x xs e = refl
  filled_with-push k ((filled, room) ∷ l) zero x xs e =
      ground
        (arith, append_assoc filled (x ∷ []) (bucket key k xs), filled_with-skip (suc k) l x xs)
  filled_with-push k ((filled, room) ∷ l) (suc i) x xs e =
      ground (arith, filled_with-push (suc k) l i x xs)

  Enough-push :
      (k : ℕ) (l : List (List A × ℕ)) (i : ℕ) (x : A) (xs : List A)
      → key x ≡ k + i
      → i < length l
      → Enough k l (x ∷ xs)
      → HasRoom l i × Enough k (push l i x) xs
  Enough-push k [] i x xs e h n = absurd (omega arith)
  Enough-push k ((filled, room) ∷ l) zero x xs e h n = ground (arith, Enough-skip (suc k) l x xs)
  Enough-push k ((filled, room) ∷ l) (suc i) x xs e h n =
      ground (arith, Enough-push (suc k) l i x xs)

  filled_with-nil : (k : ℕ) (l : List (List A × ℕ)) → filled_with k l [] ≡ l
  filled_with-nil k [] = refl
  filled_with-nil k ((filled, room) ∷ l) =
      ap₂ ◌∷◌ (ap₂ (λ (a : List A) (b : ℕ). (a, b)) (append-nil filled) (omega arith))
        (filled_with-nil (suc k) l)

  length-push : (l : List (List A × ℕ)) (i : ℕ) (x : A) → length (push l i x) ≡ length l
  length-push [] i x = refl
  length-push ((filled, room) ∷ l) zero x = refl
  length-push ((filled, room) ∷ l) (suc i) x = ap suc (length-push l i x)

  Keys-mono : (m n : ℕ) (xs : List A) → m ≤ n → Keys key m xs → Keys key n xs
  Keys-mono m n [] h ks = tt
  Keys-mono m n (x ∷ xs) h ks = (omega arith, Keys-mono m n xs h ks.1)

  -- The loop, from any partly filled layout.
  place_loop-flat {κ} :
      {B : Type κ} (f : A → B) (blank : B) (l : List (List A × ℕ)) (xs : List A)
      → Keys key (length l) xs
      → Enough 0 l xs
      → place_loop key f (positions 0 l) (flat f blank l) xs ≡ flat f blank (filled_with 0 l xs)
  unfolding place_loop
  place_loop-flat f blank l [] ks e = ap (flat f blank) (sym (filled_with-nil 0 l))
  place_loop-flat f blank l (x ∷ xs) ks e =
      let (room, rest) = Enough-push 0 l (key x) x xs (omega arith) ks.0 e in
      ap₂ (λ p b. place_loop key f p b xs) (sym (positions-push 0 l (key x) x room))
        (set-position f blank l (key x) x room)
      ∙ place_loop-flat f blank (push l (key x) x) xs
          (Keys-mono (length l) (length (push l (key x) x)) xs
            (omega (arith, length-push l (key x) x)) ks.1)
          rest
      ∙ ap (flat f blank) (filled_with-push 0 l (key x) x xs (omega arith))

  -- An empty layout with the given room in each block.
  abbrev empty : List ℕ → List (List A × ℕ)
  empty [] = []
  empty (c ∷ cs) = ([], c) ∷ empty cs

  positions-empty : (base : ℕ) (cs : List ℕ) → positions base (empty cs) ≡ exclusive_scan base cs
  positions-empty base [] = refl
  positions-empty base (c ∷ cs) =
      ap₂ ◌∷◌ (omega arith)
        (ap (λ b. positions b (empty cs)) (omega arith) ∙ positions-empty (base + c) cs)

  flat-empty {κ} :
      {B : Type κ} (f : A → B) (blank : B) (cs : List ℕ)
      → flat f blank (empty cs) ≡ replicate (sum cs) blank
  flat-empty f blank [] = refl
  flat-empty f blank (c ∷ cs) =
      ap (◌++◌ (replicate c blank)) (flat-empty f blank cs) ∙ replicate-append c (sum cs) blank

  length-empty : (cs : List ℕ) → length (empty cs) ≡ length cs
  length-empty [] = refl
  length-empty (c ∷ cs) = ap suc (length-empty cs)

  pub length-sizes : (k m : ℕ) (xs : List A) → length (sizes_from key k m xs) ≡ m
  length-sizes k zero xs = refl
  length-sizes k (suc m) xs = ap suc (length-sizes (suc k) m xs)

  Enough-sizes : (k m : ℕ) (xs : List A) → Enough k (empty (sizes_from key k m xs)) xs
  Enough-sizes k zero xs = tt
  Enough-sizes k (suc m) xs = (omega arith, Enough-sizes (suc k) m xs)

  flat-filled {κ} :
      {B : Type κ} (f : A → B) (blank : B) (k m : ℕ) (xs : List A)
      → flat f blank (filled_with k (empty (sizes_from key k m xs)) xs)
        ≡ map f (buckets_from key k m xs)
  flat-filled f blank k zero xs = refl
  flat-filled f blank k (suc m) xs =
      let none_left : length (bucket key k xs) - length (bucket key k xs) ≡ 0 = omega arith in
      rw (none_left, flat-filled f blank (suc k) m xs) (sym (map-append _ _ _))

  -- The counts with the sizes of the blocks from `k` on added.
  abbrev plus_sizes : ℕ → List ℕ → List A → List ℕ
  plus_sizes k [] xs = []
  plus_sizes k (c ∷ cs) xs = (c + length (bucket key k xs)) ∷ plus_sizes (suc k) cs xs

  plus_sizes-skip :
      (k : ℕ) (cs : List ℕ) (x : A) (xs : List A)
      → key x < k
      → plus_sizes k cs (x ∷ xs) ≡ plus_sizes k cs xs
  plus_sizes-skip k [] x xs h = refl
  plus_sizes-skip k (c ∷ cs) x xs h = ground (arith, plus_sizes-skip (suc k) cs x xs)

  plus_sizes-increment :
      (k : ℕ) (cs : List ℕ) (i : ℕ) (x : A) (xs : List A)
      → key x ≡ k + i
      → plus_sizes k (increment cs i) xs ≡ plus_sizes k cs (x ∷ xs)
  plus_sizes-increment k [] i x xs e = refl
  plus_sizes-increment k (c ∷ cs) zero x xs e = ground (arith, plus_sizes-skip (suc k) cs x xs)
  plus_sizes-increment k (c ∷ cs) (suc i) x xs e =
      ground (arith, plus_sizes-increment (suc k) cs i x xs)

  count_loop-plus : (cs : List ℕ) (xs : List A) → count_loop key cs xs ≡ plus_sizes 0 cs xs
  unfolding count_loop
  count_loop-plus cs [] = plus_nil 0 cs
    where
      plus_nil : (k : ℕ) (cs : List ℕ) → cs ≡ plus_sizes k cs []
      plus_nil k [] = refl
      plus_nil k (c ∷ cs) = ap₂ ◌∷◌ (omega arith) (plus_nil (suc k) cs)
  count_loop-plus cs (x ∷ xs) =
      count_loop-plus (increment cs (key x)) xs
      ∙ plus_sizes-increment 0 cs (key x) x xs (omega arith)

  plus_sizes-zeros :
      (k m : ℕ) (xs : List A) → plus_sizes k (replicate m 0) xs ≡ sizes_from key k m xs
  plus_sizes-zeros k zero xs = refl
  plus_sizes-zeros k (suc m) xs = ap₂ ◌∷◌ (omega arith) (plus_sizes-zeros (suc k) m xs)

  -- Counting the elements of each block gives the sizes of the blocks.
  pub count_loop-sizes :
      (m : ℕ) (xs : List A) → count_loop key (replicate m 0) xs ≡ sizes_from key 0 m xs
  count_loop-sizes m xs = count_loop-plus (replicate m 0) xs ∙ plus_sizes-zeros 0 m xs

  -- With the counts of the blocks, their exclusive prefix sums as positions and a buffer of their total
  -- size, the loop leaves the blocks one after the other, each with its elements in order.
  pub place_loop-buckets {κ} :
      {B : Type κ} (f : A → B) (blank : B) (m : ℕ) (xs : List A)
      → Keys key m xs
      → let counts = sizes_from key 0 m xs in
        place_loop key f (exclusive_scan 0 counts) (replicate (sum counts) blank) xs
        ≡ map f (buckets_from key 0 m xs)
  place_loop-buckets f blank m xs ks =
      let counts : List ℕ = sizes_from key 0 m xs in
      ap₂ (λ p b. place_loop key f p b xs) (sym (positions-empty 0 counts))
        (sym (flat-empty f blank counts))
      ∙ place_loop-flat f blank (empty counts) xs
          (Keys-mono m _ xs (omega (arith, length-empty counts, length-sizes 0 m xs)) ks)
          (Enough-sizes 0 m xs)
      ∙ flat-filled f blank 0 m xs
