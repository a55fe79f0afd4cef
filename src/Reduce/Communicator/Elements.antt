-- ===== src/Reduce/Communicator/Elements.antt =====
-- The indices whose parents another rank holds.
use mping.Prelude.{
  ℕ, zero, suc, ◌+◌, ◌-◌, ◌*◌, ◌/◌, ◌%◌, ◌^◌, ◌≤◌, ◌<◌, ◌≡◌, refl, ap, sym, ◌∙◌, subst, List, [],
  ◌∷◌, some, ltb, lt→ltb, ◌==◌, ◌||◌, Bool-cases, inl, inr, ℕ_discrete, arith,
}
use mping.Reduce.Bits.{
  shifted, tree_parent, tree_subtree_size, tree_parent-shifted, tree_subtree_size-shifted,
  shifted-pos,
}
use mping.Reduce.Communicator.{intersecting_loop, tree_rank_intersecting_elements}

-- Every positive number is an odd one, shifted.
pub odd_shifted : (fuel n : ℕ) → n ≤ fuel → 0 < n → (k : ℕ) × (m : ℕ) × (n ≡ shifted k (2 * m + 1))
odd_shifted zero n h pos = absurd (omega arith)
odd_shifted (suc fuel) n h pos = elim (ℕ_discrete (n % 2) 1) [
  | yes odd ↦ (0, n / 2, omega arith)
  | no even ↦
      let (k, m, e) = odd_shifted fuel (n / 2) (omega arith) (omega arith) in
      (suc k, m, omega (arith, e))
]

-- The subtrees lie one after the other from `index` on to the end of the region, each with its parent
-- before the region.
abbrev pub Tiles : ℕ → ℕ → ℕ → List ℕ → Type 0
Tiles region_begin region_end index [] = region_end ≤ index
Tiles region_begin region_end index (x ∷ elements) =
    (x ≡ index)
    × (index < region_end)
    × ((parent : ℕ) × (tree_parent index ≡ some parent) × (parent < region_begin))
    × Tiles region_begin region_end (index + tree_subtree_size index) elements

shifted-add : (k j x : ℕ) → shifted (k + j) x ≡ shifted k (shifted j x)
shifted-add zero j x = (let e : 0 + j ≡ j = omega arith in ap (λ t. shifted t x) e)
shifted-add (suc k) j x =
    (let e : suc k + j ≡ suc (k + j) = omega arith in ap (λ t. shifted t x) e)
    ∙ ap (λ t. 2 * t) (shifted-add k j x)

shifted_plus : (k x y : ℕ) → shifted k x + shifted k y ≡ shifted k (x + y)
shifted_plus zero x y = refl
shifted_plus (suc k) x y = omega (arith, shifted_plus k x y)

shifted_mono : (k x y : ℕ) → x ≤ y → shifted k x ≤ shifted k y
shifted_mono zero x y h = h
shifted_mono (suc k) x y h = omega (arith, shifted_mono k x y h)

-- The next index behind a subtree has the parent of that subtree, or one before it.
next_parent :
    (k m : ℕ)
    → (j : ℕ) × (l : ℕ) × (shifted k (2 * m + 1) + shifted k 1 ≡ shifted j (2 * l + 1))
      × (shifted j (2 * l) ≤ shifted k (2 * m))
next_parent k m =
    let (j, l, e) = odd_shifted (suc m) (suc m) (omega arith) (omega arith) in
    let twice : 2 * m + 1 + 1 ≡ shifted (suc j) (2 * l + 1) = omega (arith, e) in
    let below : shifted (suc j) (2 * l) ≤ 2 * m =
      omega (arith, e, shifted_plus j (2 * l) 1, shifted-pos j 0) in
    (
      k + suc j,
      l,
      shifted_plus k (2 * m + 1) 1 ∙ ap (shifted k) twice ∙ sym (shifted-add k (suc j) (2 * l + 1)),
      omega (
        arith,
        shifted-add k (suc j) (2 * l),
        shifted_mono k (shifted (suc j) (2 * l)) (2 * m) below,
      ),
    )

intersecting_loop-Tiles :
    (fuel region_begin region_end k m : ℕ)
    → 0 < fuel
    → region_end < shifted k (2 * m + 1) + fuel
    → region_end ≤ 2 ^ 63
    → shifted k (2 * m) < region_begin
    → (elements : List ℕ) × (intersecting_loop fuel region_begin region_end (shifted k (2 * m + 1))
        ≡ some elements)
      × Tiles region_begin region_end (shifted k (2 * m + 1)) elements
unfolding intersecting_loop
intersecting_loop-Tiles zero b e k m fueled enough small parent = absurd (omega arith)
intersecting_loop-Tiles (suc fuel) b e k m fueled enough small parent =
    let index = shifted k (2 * m + 1) in
    elim (Bool-cases (ltb index e)) [
      | inr stop ↦ ([], rw stop refl, ground arith)
      | inl go ↦
          let inside : index < e = ground arith in
          let size = tree_subtree_size-shifted k m (omega arith) in
          let parent_of = tree_parent-shifted k m (omega arith) in
          let (j, l, next, lower) = next_parent k m in
          let (elements, computed, tiles) =
            intersecting_loop-Tiles fuel b e j l (omega arith)
              (omega (arith, next, shifted-pos k 0)) small (omega arith) in
          let at_next : index + tree_subtree_size index ≡ shifted j (2 * l + 1) =
            ap (λ t. index + t) size ∙ next in
          (
            index ∷ elements,
            rw (go, parent_of, lt→ltb (shifted k (2 * m)) b parent, at_next, computed) refl,
            (
              refl,
              inside,
              (shifted k (2 * m), parent_of, parent),
              subst (λ t. Tiles b e t elements) (sym at_next) tiles,
            ),
          )
    ]

-- For a region behind the first index that ends at 2^63 at the latest, the loop over the
-- intersecting elements ends within its fuel and no assertion fails: the subtrees of the elements
-- lie one after the other from the start of the region to its end, and each element has its parent
-- before the region.
pub tree_rank_intersecting_elements-Tiles :
    (region_begin region_end : ℕ)
    → 0 < region_begin
    → region_begin ≤ region_end
    → region_end ≤ 2 ^ 63
    → (elements : List ℕ) × (tree_rank_intersecting_elements region_begin region_end
        ≡ some elements)
      × Tiles region_begin region_end region_begin elements
unfolding tree_rank_intersecting_elements
tree_rank_intersecting_elements-Tiles b e pos ordered small =
    elim (Bool-cases (b == 0 || e - b == 0)) [
      | inl none_local ↦ ([], rw none_local refl, ground arith)
      | inr some_local ↦
          let (k, m, at_b) = odd_shifted b b (omega arith) pos in
          let (elements, computed, tiles) =
            intersecting_loop-Tiles (e - b + 1) b e k m (omega arith) (omega (arith, at_b)) small
              (omega (arith, at_b, shifted_plus k (2 * m) 1, shifted-pos k 0)) in
          (
            elements,
            rw some_local (ap (intersecting_loop (e - b + 1) b e) at_b ∙ computed),
            subst (λ t. Tiles b e t elements) (sym at_b) tiles,
          )
    ]
