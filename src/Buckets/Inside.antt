-- ===== src/Buckets/Inside.antt =====
-- Where the counts are those of the elements and the positions their prefix sums, the placing loop stays
-- inside a buffer of as many elements as the counts add up to.
use mping.Prelude.{
  ℕ, zero, suc, ◌+◌, ◌<◌, ◌≤◌, ◌≡◌, refl, ap, ◌∙◌, List, [], ◌∷◌, get_or, length, sum,
  exclusive_scan, lt→ltb, true, ◌==◌, ==_refl, ==_iff, length-exclusive_scan,
  exclusive_scan-block-le, Bool-cases, inl, inr, arith,
}
use mping.Buckets.{increment, bucket, places_inside, sizes_from, Keys}
use mping.Buckets.Placed.{length-sizes}

get_or-increment_self :
    (ps : List ℕ) (k d : ℕ) → k < length ps → get_or (increment ps k) k d ≡ suc (get_or ps k d)
get_or-increment_self [] k d h = absurd (omega arith)
get_or-increment_self (p ∷ ps) zero d h = refl
get_or-increment_self (p ∷ ps) (suc k) d h = get_or-increment_self ps k d (omega arith)

get_or-increment_other :
    (ps : List ℕ) (j k d : ℕ) → (j ≡ k → ⊥) → get_or (increment ps j) k d ≡ get_or ps k d
get_or-increment_other [] j k d n = refl
get_or-increment_other (p ∷ ps) zero zero d n = absurd (n refl)
get_or-increment_other (p ∷ ps) zero (suc k) d n = refl
get_or-increment_other (p ∷ ps) (suc j) zero d n = refl
get_or-increment_other (p ∷ ps) (suc j) (suc k) d n =
    get_or-increment_other ps j k d (λ e. n (ap suc e))

length-increment : (ps : List ℕ) (k : ℕ) → length (increment ps k) ≡ length ps
length-increment [] k = refl
length-increment (p ∷ ps) zero = refl
length-increment (p ∷ ps) (suc k) = ap suc (length-increment ps k)

get_or-default : (ps : List ℕ) (k d e : ℕ) → k < length ps → get_or ps k d ≡ get_or ps k e
get_or-default [] k d e h = absurd (omega arith)
get_or-default (p ∷ ps) zero d e h = refl
get_or-default (p ∷ ps) (suc k) d e h = get_or-default ps k d e (omega arith)

module _ {ℓ} {A : Type ℓ} (key : A → ℕ) where
  -- Each position leaves room for the elements that are still to come.
  places_inside-room :
      (n m : ℕ) (ps : List ℕ) (xs : List A)
      → m ≤ length ps
      → ((k : ℕ) → k < m → get_or ps k n + length (bucket key k xs) ≤ n)
      → Keys key m xs
      → places_inside key n ps xs ≡ true
  unfolding places_inside
  places_inside-room n m ps [] long room ks = refl
  places_inside-room n m ps (x ∷ xs) long room ks =
      let r = rw (==_refl (key x)) at (room (key x) ks.0) in
      rw (lt→ltb (get_or ps (key x) n) n (omega (arith, r))) (
        places_inside-room n m (increment ps (key x)) xs
          (omega (arith, length-increment ps (key x))) still ks.1)
    where
      still : (k : ℕ) → k < m → get_or (increment ps (key x)) k n + length (bucket key k xs) ≤ n
      still k l = elim (Bool-cases (key x == k)) [
        | inl y ↦
            let same : key x ≡ k = (==_iff (key x) k).0 y in
            let r = rw y at (room k l) in
            let moved : get_or (increment ps (key x)) k n ≡ suc (get_or ps k n) =
              ap (λ j. get_or (increment ps j) k n) same
              ∙ get_or-increment_self ps k n (omega arith) in
            omega (arith, r, moved)
        | inr d ↦
            let differ : key x ≡ k → ⊥ = (λ e. ground arith) in
            let r = rw d at (room k l) in
            omega (arith, r, get_or-increment_other ps (key x) k n differ)
      ]

  get_or-sizes :
      (i m k d : ℕ) (xs : List A)
      → k < m
      → get_or (sizes_from key i m xs) k d ≡ length (bucket key (i + k) xs)
  get_or-sizes i zero k d xs h = absurd (omega arith)
  get_or-sizes i (suc m) zero d xs h = ap (λ j. length (bucket key j xs)) (omega arith)
  get_or-sizes i (suc m) (suc k) d xs h =
      get_or-sizes (suc i) m k d xs (omega arith) ∙ ap (λ j. length (bucket key j xs)) (omega arith)

  pub places_inside-scan :
      (m : ℕ) (xs : List A)
      → Keys key m xs
      → let counts = sizes_from key 0 m xs in
        places_inside key (sum counts) (exclusive_scan 0 counts) xs ≡ true
  places_inside-scan m xs ks =
      let counts = sizes_from key 0 m xs in
      let displs = exclusive_scan 0 counts in
      let many : length counts ≡ m = length-sizes key 0 m xs in
      let as_many : length displs ≡ m = length-exclusive_scan 0 counts ∙ many in
      places_inside-room (sum counts) m displs xs (omega arith)
        (λ k l.
          let size : get_or counts k 0 ≡ length (bucket key k xs) =
            get_or-sizes 0 m k 0 xs l ∙ ap (λ j. length (bucket key j xs)) (omega arith) in
          omega (
            arith,
            size,
            get_or-default displs k (sum counts) 0 (omega arith),
            exclusive_scan-block-le 0 counts k (omega arith),
          ))
        ks
