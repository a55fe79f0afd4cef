-- ===== src/Grid/Places.antt =====
-- Where the ranks stand in the row and column communicators.
use mathlib.Core.List.{append-nil}
use mping.Prelude.{
  subst, ℕ, zero, suc, ◌<◌, ◌≡◌, ◌≢◌, inl, inr, refl, ap, sym, ◌∙◌, List, [], ◌∷◌, ◌++◌, length,
  length-append, get_or, false, Bool-cases, ◌==◌, ==_refl, ltb, if◌then◌else◌, arith, ℕ_discrete,
}
use mping.Grid.Members.{members, count_color, length-members}

-- The index of a rank in a list of ranks, which is its rank in their communicator.
abbrev pub index_of : List ℕ → ℕ → ℕ
index_of [] m = 0
index_of (x ∷ xs) m = if x == m then 0 else suc (index_of xs m)

get_or-append_left :
    (xs ys : List ℕ) (i : ℕ) → i < length xs → get_or (xs ++ ys) i 0 ≡ get_or xs i 0
get_or-append_left [] ys i l = absurd (omega arith)
get_or-append_left (x ∷ xs) ys zero l = refl
get_or-append_left (x ∷ xs) ys (suc i) l = get_or-append_left xs ys i (omega arith)

get_or-append_length : (xs : List ℕ) (y : ℕ) → get_or (xs ++ y ∷ []) (length xs) 0 ≡ y
get_or-append_length [] y = refl
get_or-append_length (x ∷ xs) y = get_or-append_length xs y

index_of-append_left :
    (xs ys : List ℕ) (m i : ℕ)
    → i < length xs
    → get_or xs i 0 ≡ m
    → index_of (xs ++ ys) m ≡ index_of xs m
index_of-append_left [] ys m i l e = absurd (omega arith)
index_of-append_left (x ∷ xs) ys m zero l e = rw (e, ==_refl m) refl
index_of-append_left (x ∷ xs) ys m (suc i) l e = elim (Bool-cases (x == m)) [
  | inl y ↦ rw y refl
  | inr n ↦ rw n (ap suc (index_of-append_left xs ys m i (omega arith) e))
]

index_of-append_new :
    (xs : List ℕ) (m : ℕ)
    → ((i : ℕ) → i < length xs → get_or xs i 0 ≢ m)
    → index_of (xs ++ m ∷ []) m ≡ length xs
index_of-append_new [] m h = rw (==_refl m) refl
index_of-append_new (x ∷ xs) m h =
    let other : (x == m) ≡ false = ground (arith, h 0 (omega arith)) in
    rw other (ap suc (index_of-append_new xs m (λ i l. h (suc i) (omega arith))))

module _ (color : ℕ → ℕ) where
  members-own : (k n : ℕ) → color n ≡ k → members color k (suc n) ≡ members color k n ++ n ∷ []
  members-own k n e = rw (e, ==_refl k) refl

  members-other : (k n : ℕ) → color n ≢ k → members color k (suc n) ≡ members color k n
  members-other k n e =
      let other : (color n == k) ≡ false = ground arith in rw other (append-nil (members color k n))

  abbrev pub StandsAt : ℕ → ℕ → ℕ → ℕ → Type 0
  StandsAt k n j x = (x < n) × (color x ≡ k) × (count_color color k x ≡ j)

  StandsAt-suc : (k n j x : ℕ) → StandsAt k n j x → StandsAt k (suc n) j x
  StandsAt-suc k n j x s = (omega arith, s.1, s.2)

  -- The member at index `j` has the color, and `j` counts the members before it.
  pub members-at :
      (k n j : ℕ) → j < length (members color k n) → StandsAt k n j (get_or (members color k n) j 0)
  members-at k zero j l = absurd (omega arith)
  members-at k (suc n) j l = elim (ℕ_discrete (color n) k) [
    | yes e ↦ elim (Bool-cases (ltb j (length (members color k n)))) [
      | inl before ↦
          subst (StandsAt k (suc n) j)
            (sym (
              ap (λ xs. get_or xs j 0) (members-own k n e)
              ∙ get_or-append_left (members color k n) (n ∷ []) j (ground arith)))
            (StandsAt-suc k n j (get_or (members color k n) j 0) (members-at k n j (ground arith)))
      | inr last ↦
          let at_end : j ≡ length (members color k n) =
            ground
              (arith, ap length (members-own k n e), length-append (members color k n) (n ∷ [])) in
          subst (StandsAt k (suc n) j)
            (sym (
              ap (λ xs. get_or xs j 0) (members-own k n e)
              ∙ ap (λ i. get_or (members color k n ++ n ∷ []) i 0) at_end
              ∙ get_or-append_length (members color k n) n))
            (omega arith, e, omega (arith, length-members color k n, at_end))
    ]
    | no other ↦
        subst (StandsAt k (suc n) j) (sym (ap (λ xs. get_or xs j 0) (members-other k n other))) (
          StandsAt-suc k n j (get_or (members color k n) j 0)
            (members-at k n j (omega (arith, ap length (members-other k n other)))))
  ]

  pub count-lt : (m n : ℕ) → m < n → count_color color (color m) m < count_color color (color m) n
  count-lt m zero l = absurd (omega arith)
  count-lt m (suc n) l = elim (ℕ_discrete m n) [
    | yes e ↦ rw (← e, ==_refl (color m)) (omega arith)
    | no other ↦ omega (arith, count-lt m n (omega arith))
  ]

  pub get_or-members :
      (m n : ℕ) → m < n → get_or (members color (color m) n) (count_color color (color m) m) 0 ≡ m
  get_or-members m zero l = absurd (omega arith)
  get_or-members m (suc n) l = elim (ℕ_discrete n m) [
    | yes e ↦ rw e (
        ap (λ xs. get_or xs (count_color color (color m) m) 0) (members-own (color m) m refl)
        ∙ ap (λ i. get_or (members color (color m) m ++ m ∷ []) i 0)
            (sym (length-members color (color m) m))
        ∙ get_or-append_length (members color (color m) m) m)
    | no other ↦
        get_or-append_left (members color (color m) n) _ (count_color color (color m) m)
          (omega (arith, length-members color (color m) n, count-lt m n (omega arith)))
        ∙ get_or-members m n (omega arith)
  ]

  pub index_of-members :
      (m n : ℕ) → m < n → index_of (members color (color m) n) m ≡ count_color color (color m) m
  index_of-members m zero l = absurd (omega arith)
  index_of-members m (suc n) l = elim (ℕ_discrete n m) [
    | yes e ↦ rw e (
        ap (λ xs. index_of xs m) (members-own (color m) m refl)
        ∙ index_of-append_new (members color (color m) m) m
            (λ i h f. absurd (omega (arith, members-at (color m) m i h, f)))
        ∙ length-members color (color m) m)
    | no other ↦
        index_of-append_left (members color (color m) n) _ m (count_color color (color m) m)
          (omega (arith, length-members color (color m) n, count-lt m n (omega arith)))
          (get_or-members m n (omega arith))
        ∙ index_of-members m n (omega arith)
  ]
