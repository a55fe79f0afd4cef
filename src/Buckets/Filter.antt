-- ===== src/Buckets/Filter.antt =====
-- The elements of a key among elements that satisfy a predicate, in blocks, or of two keys.
use mping.Prelude.{
  ℕ, zero, suc, ◌+◌, ◌<◌, ◌≤◌, ◌≡◌, ◌≢◌, refl, ap, ap₂, sym, ◌∙◌, List, [], ◌∷◌, ◌++◌, map, true,
  false, ◌&&◌, Bool-cases, inl, inr, ◌==◌, ==_refl, ==_iff, arith,
}
use mathlib.Core.List.{append-nil}
use mping.Blocks.{concat, tabulate_from}
use mping.Buckets.{bucket, Keys}

abbrev pub Each {ℓ κ} : {A : Type ℓ} → (A → Type κ) → List A → Type κ
Each P [] = Unit
Each P (x ∷ xs) = P x × Each P xs

module _ {ℓ} {A : Type ℓ} where
  pub Each-mono {κ μ} :
      (P : A → Type κ) (Q : A → Type μ)
      → ((x : A) → P x → Q x)
      → (xs : List A) → Each P xs
      → Each Q xs
  Each-mono P Q f [] h = tt
  Each-mono P Q f (x ∷ xs) h = (f x h.0, Each-mono P Q f xs h.1)

  pub Each-append {κ} :
      (P : A → Type κ) (xs ys : List A) → Each P xs → Each P ys → Each P (xs ++ ys)
  Each-append P [] ys h k = k
  Each-append P (x ∷ xs) ys h k = (h.0, Each-append P xs ys h.1 k)

  pub Each-map {κ μ} :
      {B : Type μ} (P : B → Type κ) (f : A → B) (xs : List A)
      → Each (λ x. P (f x)) xs
      → Each P (map f xs)
  Each-map P f [] h = tt
  Each-map P f (x ∷ xs) h = (h.0, Each-map P f xs h.1)

  pub Each-concat {κ} :
      (P : A → Type κ) (k n : ℕ) (f : ℕ → List A)
      → ((i : ℕ) → i < k + n → Each P (f i))
      → Each P (concat (tabulate_from k n f))
  Each-concat P k zero f h = tt
  Each-concat P k (suc n) f h =
      Each-append P (f k) (concat (tabulate_from (suc k) n f)) (h k (omega arith))
        (Each-concat P (suc k) n f (λ i l. h i (omega arith)))

  pub concat-none :
      (k n : ℕ) (f : ℕ → List A)
      → ((j : ℕ) → k ≤ j → j < k + n → f j ≡ [])
      → concat (tabulate_from k n f) ≡ []
  concat-none k zero f h = refl
  concat-none k (suc n) f h =
      ap₂ ◌++◌ (h k (omega arith) (omega arith))
        (concat-none (suc k) n f (λ j a b. h j (omega arith) (omega arith)))

  pub Keys-Each : (key : A → ℕ) (m : ℕ) (xs : List A) → Each (λ x. key x < m) xs → Keys key m xs
  Keys-Each key m [] h = tt
  Keys-Each key m (x ∷ xs) h = (h.0, Keys-Each key m xs h.1)

  -- At most one of the blocks has elements.
  pub concat-lone :
      (k n : ℕ) (f : ℕ → List A) (i : ℕ)
      → i < n
      → ((j : ℕ) → j < k + n → j ≢ k + i → f j ≡ [])
      → concat (tabulate_from k n f) ≡ f (k + i)
  concat-lone k zero f i l others = absurd (omega arith)
  concat-lone k (suc n) f zero l others =
      ap₂ ◌++◌ (let e : k ≡ k + 0 = omega arith in ap f e)
        (concat-none (suc k) n f (λ j a b. others j (omega arith) (omega arith)))
      ∙ append-nil (f (k + 0))
  concat-lone k (suc n) f (suc i) l others =
      ap₂ ◌++◌ (others k (omega arith) (omega arith))
        (concat-lone (suc k) n f i (omega arith) (λ j a b. others j (omega arith) (omega arith)))
      ∙ (let e : suc k + i ≡ k + suc i = omega arith in ap f e)

  module _ (key : A → ℕ) (k : ℕ) where
    pub bucket-append :
        (xs ys : List A) → bucket key k (xs ++ ys) ≡ bucket key k xs ++ bucket key k ys
    bucket-append [] ys = refl
    bucket-append (x ∷ xs) ys = elim (Bool-cases (key x == k)) [
      | inl y ↦ rw y (ap (λ r. x ∷ r) (bucket-append xs ys))
      | inr n ↦ rw n (bucket-append xs ys)
    ]

    pub bucket-concat :
        (i n : ℕ) (f : ℕ → List A)
        → bucket key k (concat (tabulate_from i n f))
          ≡ concat (tabulate_from i n (λ j. bucket key k (f j)))
    bucket-concat i zero f = refl
    bucket-concat i (suc n) f =
        bucket-append (f i) (concat (tabulate_from (suc i) n f))
        ∙ ap (λ r. bucket key k (f i) ++ r) (bucket-concat (suc i) n f)

    pub bucket-all : (xs : List A) → Each (λ x. key x ≡ k) xs → bucket key k xs ≡ xs
    bucket-all [] h = refl
    bucket-all (x ∷ xs) h = rw (h.0, ==_refl k) (ap (λ r. x ∷ r) (bucket-all xs h.1))

    pub bucket-none : (xs : List A) → Each (λ x. key x ≢ k) xs → bucket key k xs ≡ []
    bucket-none [] h = refl
    bucket-none (x ∷ xs) h =
        let other : (key x == k) ≡ false = ground (arith, h.0) in rw other (bucket-none xs h.1)

    pub bucket-Each {κ} :
        (P : A → Type κ) (xs : List A) → Each P xs → Each (λ x. P x × (key x ≡ k)) (bucket key k xs)
    bucket-Each P [] h = tt
    bucket-Each P (x ∷ xs) h = elim (Bool-cases (key x == k)) [
      | inl y ↦ rw y ((h.0, (==_iff (key x) k).0 y), bucket-Each P xs h.1)
      | inr n ↦ rw n (bucket-Each P xs h.1)
    ]

  pub bucket-both :
      (key key' whole : A → ℕ) (a b c : ℕ)
      → ((x : A) → ((key x == a) && (key' x == b)) ≡ (whole x == c))
      → (xs : List A) → bucket key a (bucket key' b xs) ≡ bucket whole c xs
  bucket-both key key' whole a b c agree [] = refl
  bucket-both key key' whole a b c agree (x ∷ xs) = elim (Bool-cases (key' x == b)) [
    | inl y ↦ elim (Bool-cases (key x == a)) [
      | inl z ↦
          let w : (whole x == c) ≡ true = sym (agree x) ∙ rw (y, z) refl in
          rw (y, z, w) (ap (λ r. x ∷ r) (bucket-both key key' whole a b c agree xs))
      | inr z ↦
          let w : (whole x == c) ≡ false = sym (agree x) ∙ rw z refl in
          rw (y, z, w) (bucket-both key key' whole a b c agree xs)
    ]
    | inr n ↦
        let w : (whole x == c) ≡ false = sym (agree x) ∙ ground (arith, n) in
        rw (n, w) (bucket-both key key' whole a b c agree xs)
  ]

  pub bucket-commute :
      (key key' : A → ℕ) (a b : ℕ) (xs : List A)
      → bucket key a (bucket key' b xs) ≡ bucket key' b (bucket key a xs)
  bucket-commute key key' a b [] = refl
  bucket-commute key key' a b (x ∷ xs) = elim (Bool-cases (key' x == b)) [
    | inl y ↦ elim (Bool-cases (key x == a)) [
      | inl z ↦ rw (y, z, y) (ap (λ r. x ∷ r) (bucket-commute key key' a b xs))
      | inr z ↦ rw (y, z) (bucket-commute key key' a b xs)
    ]
    | inr n ↦ elim (Bool-cases (key x == a)) [
      | inl z ↦ rw (n, z, n) (bucket-commute key key' a b xs)
      | inr z ↦ rw (n, z) (bucket-commute key key' a b xs)
    ]
  ]

  pub bucket-map {κ} :
      {B : Type κ} (f : A → B) (key : B → ℕ) (k : ℕ) (xs : List A)
      → bucket key k (map f xs) ≡ map f (bucket (λ x. key (f x)) k xs)
  bucket-map f key k [] = refl
  bucket-map f key k (x ∷ xs) = elim (Bool-cases (key (f x) == k)) [
    | inl y ↦ rw y (ap (λ r. f x ∷ r) (bucket-map f key k xs))
    | inr n ↦ rw n (bucket-map f key k xs)
  ]
