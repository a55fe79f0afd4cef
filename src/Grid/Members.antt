-- ===== src/Grid/Members.antt =====
-- The communicators that a split makes when every rank's key is its rank: what MPI documents of
-- `MPI_Comm_split`, and where a rank stands among the ranks of its color.
use mping.Prelude.{
  ℕ, zero, suc, ◌+◌, ◌<◌, ◌≡◌, refl, List, [], ◌∷◌, ◌++◌, some, ◌==◌, get_elem?, length,
  length-append, if◌then◌else◌, arith, ℕ_discrete, ==_refl, ap, sym, ◌∙◌,
}

-- The ranks below `n` of color `k`, in rank order.
abbrev pub members : (ℕ → ℕ) → ℕ → ℕ → List ℕ
members color k zero = []
members color k (suc n) = members color k n ++ (if color n == k then n ∷ [] else [])

-- How many ranks below `n` have color `k`.
abbrev pub count_color : (ℕ → ℕ) → ℕ → ℕ → ℕ
count_color color k zero = 0
count_color color k (suc n) = count_color color k n + (if color n == k then 1 else 0)

pub length-members : (color : ℕ → ℕ) (k n : ℕ) → length (members color k n) ≡ count_color color k n
length-members color k zero = refl
length-members color k (suc n) = ground (
  arith,
  length-members color k n,
  length-append (members color k n) (if color n == k then n ∷ [] else []),
)

module _ {ℓ} {A : Type ℓ} where
  get_elem?-append_left :
      (xs ys : List A) (i : ℕ) {a : A} → get_elem? xs i ≡ some a → get_elem? (xs ++ ys) i ≡ some a
  get_elem?-append_left [] ys i e = absurd (cc)
  get_elem?-append_left (x ∷ xs) ys zero e = e
  get_elem?-append_left (x ∷ xs) ys (suc i) e = get_elem?-append_left xs ys i e

  get_elem?-append_length : (xs : List A) (a : A) → get_elem? (xs ++ a ∷ []) (length xs) ≡ some a
  get_elem?-append_length [] a = refl
  get_elem?-append_length (x ∷ xs) a = get_elem?-append_length xs a

-- A rank stands at the index that counts the smaller ranks of its color.
get_elem?-members :
    (color : ℕ → ℕ) (n d : ℕ)
    → d < n
    → get_elem? (members color (color d) n) (count_color color (color d) d) ≡ some d
get_elem?-members color zero d h = elim h [ ]
get_elem?-members color (suc n) d h = elim (ℕ_discrete n d) [
  | yes e ↦
      rw (e, ==_refl, ← length-members color (color d) d)
        (get_elem?-append_length (members color (color d) d) d)
  | no ne ↦
      get_elem?-append_left (members color (color d) n) _ _
        (get_elem?-members color n d (omega arith))
]

pub member_at :
    (color : ℕ → ℕ) (k n d i : ℕ)
    → color d ≡ k
    → count_color color k d ≡ i
    → d < n
    → get_elem? (members color k n) i ≡ some d
member_at color k n d i e f h =
    ap (get_elem? (members color k n)) (sym f)
    ∙ ap (λ c. get_elem? (members color c n) (count_color color c d)) (sym e)
    ∙ get_elem?-members color n d h
