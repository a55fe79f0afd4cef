-- ===== src/Sort/Splitters.antt =====
-- The samples that `pick_splitters` reads.
use mping.Prelude.{
  ℕ_discrete, subst, take, replicate, ◌++◌, ℕ, zero, suc, ◌+◌, ◌-◌, ◌*◌, ◌<◌, ◌≤◌, ◌≡◌, refl, ap,
  sym, ◌∙◌, Bool, Bool-cases, Option-cases, inl, inr, List, [], ◌∷◌, none, some, length, get_elem?,
  set, arith,
}
use mping.Blocks.{resize}
use mping.Blocks.Scan.{length-resize}
use mping.Sort.{oversampling_ratio, insert, sort_list, pick_loop, pick_splitters}

mul_mono : (k a b : ℕ) → a ≤ b → k * a ≤ k * b
mul_mono k a b h = grind arith

mul_grows : (k a : ℕ) → 0 < k → a ≤ k * a
mul_grows k a h = grind arith

too_few : (r base n total : ℕ) → r ≡ base + 1 → total ≡ r + n * base → r ≤ n → total ≤ r * n
too_few r base n total e t l = grind arith

-- A rank with elements takes one more sample than one without.
ratio-local :
    (size local_size : ℕ)
    → 0 < local_size
    → oversampling_ratio size local_size ≡ oversampling_ratio size 0 + 1
unfolding oversampling_ratio
ratio-local size local_size h = ground arith

get_elem?-resize {ℓ} :
    {A : Type ℓ} (blank : A) (n : ℕ) (xs : List A) (j : ℕ)
    → j < n
    → n < length xs
    → get_elem? (resize blank n xs) j ≡ get_elem? xs j
get_elem?-resize blank zero xs j l h = absurd (omega arith)
get_elem?-resize blank (suc n) [] j l h = absurd (omega arith)
get_elem?-resize blank (suc n) (x ∷ xs) zero l h = refl
get_elem?-resize blank (suc n) (x ∷ xs) (suc j) l h =
    let e : suc n - suc (length xs) ≡ n - length xs = omega arith in
    ap (λ m. get_elem? (take n xs ++ replicate m blank) j) e
    ∙ get_elem?-resize blank n xs j (omega arith) (omega arith)

module _ {ℓ} {A : Type ℓ} (comp : A → A → Bool) where
  length-insert : (x : A) (ys : List A) → length (insert comp x ys) ≡ suc (length ys)
  length-insert x [] = refl
  length-insert x (y ∷ ys) = elim (Bool-cases (comp y x)) [
    | inl e ↦ rw e (ap suc (length-insert x ys))
    | inr e ↦ rw e refl
  ]

  length-sort_list : (xs : List A) → length (sort_list comp xs) ≡ length xs
  length-sort_list [] = refl
  length-sort_list (x ∷ xs) = length-insert x (sort_list comp xs) ∙ ap suc (length-sort_list xs)

  get_elem?-outside : (xs : List A) (i : ℕ) → length xs ≤ i → get_elem? xs i ≡ none
  get_elem?-outside [] i h = refl
  get_elem?-outside (x ∷ xs) zero h = absurd (omega arith)
  get_elem?-outside (x ∷ xs) (suc i) h = get_elem?-outside xs i (omega arith)

  length-set : (xs : List A) (i : ℕ) (v : A) → length (set xs i v) ≡ length xs
  length-set [] i v = refl
  length-set (x ∷ xs) zero v = refl
  length-set (x ∷ xs) (suc i) v = ap suc (length-set xs i v)

  -- The last splitter is read at `ratio * (i + n)`.
  pick_loop-none :
      (ratio n i : ℕ) (samples : List A)
      → 0 < n
      → length samples ≤ ratio * (i + n)
      → pick_loop comp ratio n i samples ≡ none
  pick_loop-none ratio zero i samples p h = absurd (omega arith)
  pick_loop-none ratio (suc zero) i samples p h =
      rw (get_elem?-outside samples (ratio * (i + 1)) h) refl
  pick_loop-none ratio (suc (suc n)) i samples p h =
      elim (Option-cases (get_elem? samples (ratio * (i + 1)))) [
        | inl e ↦ rw e refl
        | inr (v, e) ↦
            let shift : i + suc (suc n) ≡ suc i + suc n = omega arith in
            rw e (
              pick_loop-none ratio (suc n) (suc i) (set samples i v) (omega arith)
                (omega (arith, length-set samples i v, ap (◌*◌ ratio) shift)))
      ]

  pub pick_splitters-none :
      (blank : A) (n ratio : ℕ) (samples : List A)
      → 0 < n
      → length samples ≤ ratio * n
      → pick_splitters comp blank n ratio samples ≡ none
  unfolding pick_splitters
  pick_splitters-none blank n ratio samples p h =
      let front : 0 + n ≡ n = omega arith in
      rw
        (pick_loop-none ratio n 0 (sort_list comp samples) p
          (omega (arith, length-sort_list samples, ap (◌*◌ ratio) front)))
        refl

  get_elem?-inside : (xs : List A) (i : ℕ) → i < length xs → (v : A) × (get_elem? xs i ≡ some v)
  get_elem?-inside [] i h = absurd (omega arith)
  get_elem?-inside (x ∷ xs) zero h = (x, refl)
  get_elem?-inside (x ∷ xs) (suc i) h = get_elem?-inside xs i (omega arith)

  get_elem?-set_other :
      (xs : List A) (i j : ℕ) (v : A) → (j ≡ i → ⊥) → get_elem? (set xs i v) j ≡ get_elem? xs j
  get_elem?-set_other [] i j v h = refl
  get_elem?-set_other (x ∷ xs) zero zero v h = absurd (h refl)
  get_elem?-set_other (x ∷ xs) (suc i) zero v h = refl
  get_elem?-set_other (x ∷ xs) zero (suc j) v h = refl
  get_elem?-set_other (x ∷ xs) (suc i) (suc j) v h =
      get_elem?-set_other xs i j v (λ e. h (ap suc e))

  get_elem?-set : (xs : List A) (i : ℕ) (v : A) → i < length xs → get_elem? (set xs i v) i ≡ some v
  get_elem?-set [] i v h = absurd (omega arith)
  get_elem?-set (x ∷ xs) zero v h = refl
  get_elem?-set (x ∷ xs) (suc i) v h = get_elem?-set xs i v (omega arith)

  pick_loop-some :
      (ratio n i : ℕ) (samples : List A)
      → 0 < ratio
      → ratio * (i + n) < length samples
      → (picked : List A) × (pick_loop comp ratio n i samples ≡ some picked)
        × (length picked ≡ length samples)
        × ((j : ℕ) → j < i → get_elem? picked j ≡ get_elem? samples j)
        × ((j : ℕ) → i ≤ j → j < i + n → get_elem? picked j ≡ get_elem? samples (ratio * (j + 1)))
  pick_loop-some ratio zero i samples p h =
      (samples, refl, refl, λ j l. refl, λ j l m. absurd (omega arith))
  pick_loop-some ratio (suc n) i samples p h =
      let (v, e) =
        get_elem?-inside samples (ratio * (i + 1))
          (omega (arith, mul_mono ratio (i + 1) (i + suc n) (omega arith))) in
      let shift : i + suc n ≡ suc i + n = omega arith in
      let i_in : i < length samples = omega (arith, mul_grows ratio (i + suc n) p) in
      let (picked, d, len, before, from) =
        pick_loop-some ratio n (suc i) (set samples i v) p
          (omega (arith, length-set samples i v, ap (◌*◌ ratio) shift)) in
      (
        picked,
        rw e d,
        len ∙ length-set samples i v,
        λ j l. before j (omega arith) ∙ get_elem?-set_other samples i j v (λ q. omega arith),
        λ j l m. elim (ℕ_discrete j i) [
          | yes q ↦
              subst (λ a. get_elem? picked a ≡ get_elem? samples (ratio * (a + 1))) (sym q)
                (before i (omega arith) ∙ get_elem?-set samples i v i_in ∙ sym e)
          | no q ↦
              from j (omega arith) (omega arith)
              ∙ get_elem?-set_other samples i (ratio * (j + 1)) v
                  (λ r. omega (arith, mul_grows ratio (j + 1) p))
        ],
      )

  -- If the ratio is positive and there are more samples than the ratio times the number of
  -- splitters, then picking the splitters is defined, and splitter `j` of them is the sorted sample
  -- at the ratio times `j + 1`, although the loop writes into the samples it reads.
  pub pick_splitters-some :
      (blank : A) (n ratio : ℕ) (samples : List A)
      → 0 < ratio
      → ratio * n < length samples
      → (splitters : List A) × (pick_splitters comp blank n ratio samples ≡ some splitters)
        × (length splitters ≡ n)
        × ((j : ℕ)
            → j < n
            → get_elem? splitters j ≡ get_elem? (sort_list comp samples) (ratio * (j + 1)))
  unfolding pick_splitters
  pick_splitters-some blank n ratio samples p h =
      let front : 0 + n ≡ n = omega arith in
      let (picked, d, len, before, from) =
        pick_loop-some ratio n 0 (sort_list comp samples) p
          (omega (arith, length-sort_list samples, ap (◌*◌ ratio) front)) in
      (
        resize blank n picked,
        rw d refl,
        length-resize blank n picked,
        λ j l.
            get_elem?-resize blank n picked j l
              (omega (arith, len, length-sort_list samples, mul_grows ratio n p))
            ∙ from j (omega arith) (omega arith),
      )

  -- In a communicator where one rank has elements and the others have none, so that it takes one
  -- more sample than each of them, and whose size exceeds the number of samples of that rank, this
  -- rank reads behind the end of the samples when it picks the splitters.
  pub pick_splitters-lone_rank :
      (blank : A) (size local_size : ℕ) (samples : List A)
      → 0 < local_size
      → 1 < size
      → length samples ≡ oversampling_ratio size local_size + (size - 1) * oversampling_ratio size 0
      → oversampling_ratio size local_size < size
      → pick_splitters comp blank (size - 1) (oversampling_ratio size local_size) samples ≡ none
  pick_splitters-lone_rank blank size local_size samples h s e l =
      pick_splitters-none blank (size - 1) (oversampling_ratio size local_size) samples
        (omega arith)
        (too_few (oversampling_ratio size local_size) (oversampling_ratio size 0) (size - 1)
          (length samples) (ratio-local size local_size h) e (omega arith))
