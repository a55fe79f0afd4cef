-- ===== src/Reduce/Communicator/Values.antt =====
-- What the reduction of a subtree gives, whatever part of the array the rank holds.
use mping.Prelude.{
  ℕ, zero, suc, ◌+◌, ◌-◌, ◌*◌, ◌%◌, ◌^◌, ◌≤◌, ◌<◌, ◌≡◌, refl, ap, sym, ◌∙◌, List, [], ◌∷◌, Option,
  some, length, get_elem?, get_or, drop, min, ltb, lt→ltb, dec_lt, ◌==◌, true, false, arith,
}
use mping.Reduce.{power_of_two, tree_height, log2l, upper_bound_position, tree_rank_from_index_map}
use mping.Reduce.Bits.{
  shifted, tree_subtree_size, tree_subtree_size-shifted, shifted-pos, shifted-le,
}
use mping.Reduce.Heights.{power_mono, power-positive, tree_height-least}
use mping.Reduce.Tree.{node, node-zero, shifted-scale}
use mping.Reduce.Buffer.{MessageBuffer, MessageBufferEntry}
use mping.Reduce.Buffer.Fifo.{accepted}
use mping.Reduce.Communicator.{ReproducibleCommunicator, level_loop, perform_reduce_at}
use mping.Reduce.Communicator.Levels.{Brings, IsRight, Subtree, reduce_levels}
use mping.Reduce.Communicator.Shapes.{log2l-power, inner-Subtree, root-Subtree}

get_elem?-drop {ℓ} :
    {A : Type ℓ} (n i : ℕ) (xs : List A) → get_elem? (drop n xs) i ≡ get_elem? xs (n + i)
get_elem?-drop zero i xs = ap (get_elem? xs) (omega arith)
get_elem?-drop (suc n) i [] = refl
get_elem?-drop (suc n) i (x ∷ xs) =
    get_elem?-drop n i xs
    ∙ (let e : suc (n + i) ≡ suc n + i = omega arith in ap (get_elem? (x ∷ xs)) e)

-- The first region starts at index 0.
pub tree_rank-total :
    (rank : ℕ) (rest : List (ℕ × ℕ)) (i : ℕ)
    → (r : ℕ) × (tree_rank_from_index_map ((0, rank) ∷ rest) i ≡ some r)
tree_rank-total rank rest i =
    ((get_or ((0, rank) ∷ rest) (suc (upper_bound_position rest i) - 1) (0, 0)).1, ground arith)

power_lt : (k : ℕ) → power_of_two k < 2 ^ 64 → k < 64
power_lt k h = elim (dec_lt k 64) [
  | yes small ↦ small
  | no big ↦ absurd (omega (arith, power_mono 64 k (omega arith)))
]

module _ {ℓ} {A : Type ℓ} (op : A → A → A) (at : ℕ → A) where
  -- A communicator set up for an array of which the rank has its region in `buffer`, where all messages,
  -- and what the message buffer still holds of earlier ones, are right.
  pub record IsSetUp (c : ReproducibleCommunicator A)
      (brings : ℕ → ℕ → Option (List (MessageBufferEntry A))) (buffer : List A)
      (s : MessageBuffer A) : Type ℓ where
    pub first_rank : ℕ
    pub rest : List (ℕ × ℕ)
    pub from_zero : c.start_indices ≡ (0, first_rank) ∷ rest
    pub region : c.region_begin + c.region_size ≤ c.global_size
    pub room : length c.reduce_buffer ≡ c.region_size
    pub holds : (i : ℕ) → i < c.region_size → get_elem? buffer i ≡ some (at (c.region_begin + i))
    pub answers : Brings op c.global_size at c.start_indices brings
    pub right : IsRight op c.global_size at (accepted s) s
    pub small : c.global_size ≤ 2 ^ 63

  module _ (c : ReproducibleCommunicator A) (brings : ℕ → ℕ → Option (List (MessageBufferEntry A)))
      (buffer : List A) (s : MessageBuffer A) (h : IsSetUp c brings buffer s) where
    found : (i : ℕ) → (rank : ℕ) × (tree_rank_from_index_map c.start_indices i ≡ some rank)
    found i = rw h.from_zero (tree_rank-total h.first_rank h.rest i)

    -- A local subtree by the loop over its levels.
    local_levels :
        (index max_x max_y : ℕ)
        → Subtree c.global_size index max_x max_y
        → 0 < max_y
        → c.region_begin ≤ index
        → index < c.region_begin + c.region_size
        → index ≤ max_x
        → (s' : MessageBuffer A) × IsRight op c.global_size at (accepted s) s'
          × (level_loop op c.start_indices brings index max_x max_y 0
                (some (drop (index - c.region_begin) buffer))
                (min max_x (c.region_begin + c.region_size - 1) + 1 - index)
                c.reduce_buffer
                s
              ≡ some (node op c.global_size at max_y index, s'))
    local_levels index max_x max_y shape tall low high inside =
        reduce_levels op c.global_size at c.start_indices brings (accepted s) index max_x max_y
          (suc (min max_x (c.region_begin + c.region_size - 1))) found h.answers shape (omega arith)
          (drop (index - c.region_begin) buffer)
          (min max_x (c.region_begin + c.region_size - 1) + 1 - index) c.reduce_buffer s tall
          (λ i l.
            get_elem?-drop (index - c.region_begin) i buffer
            ∙ h.holds (index - c.region_begin + i) (omega arith)
            ∙ ap (λ t. some (at t)) (omega arith))
          (omega arith) (omega arith) (omega (arith, h.room)) h.right

    -- The height and the end of a subtree, by its index.
    inner_levels :
        (k m : ℕ)
        → let index = shifted (suc k) (2 * m + 1) in
          let max_x = min (c.global_size - 1) (index + power_of_two (suc k) - 1) in
          index < 2 ^ 64
          → (result : Option (A × MessageBuffer A))
          → level_loop op c.start_indices brings index max_x
              (suc k)
              0
              (some (drop (index - c.region_begin) buffer))
              (min max_x (c.region_begin + c.region_size - 1) + 1 - index)
              c.reduce_buffer
              s
            ≡ result
          → perform_reduce_at op brings c index buffer s ≡ result
    unfolding perform_reduce_at
    inner_levels k m word result e =
        let index = shifted (suc k) (2 * m + 1) in
        let size : tree_subtree_size index ≡ power_of_two (suc k) =
          tree_subtree_size-shifted (suc k) m word ∙ (shifted-scale (suc k) 1 ∙ omega arith) in
        let fits : power_of_two (suc k) < 2 ^ 64 =
          omega (arith, shifted-le (suc k) m, shifted-scale (suc k) 1) in
        let height : log2l (power_of_two (suc k)) ≡ suc k = log2l-power (suc k) fits in
        let low_enough : ltb (suc k) 64 ≡ true = lt→ltb (suc k) 64 (power_lt (suc k) fits) in
        let even : index % 2 == 1 ≡ false = ground arith in
        let inner : index == 0 ≡ false = (let pos = shifted-pos (suc k) m in ground arith) in
        rw (even, inner, size, height, low_enough) e

    -- A.
    pub perform_reduce_at-inner :
        (k m : ℕ)
        → let index = shifted k (2 * m + 1) in
          c.region_begin ≤ index
          → index < c.region_begin + c.region_size
          → (s' : MessageBuffer A) × IsRight op c.global_size at (accepted s) s'
            × (perform_reduce_at op brings c index buffer s
                ≡ some (node op c.global_size at k index, s'))
    unfolding perform_reduce_at
    perform_reduce_at-inner zero m low high =
        let odd : (2 * m + 1) % 2 == 1 ≡ true = ground arith in
        let value : get_elem? buffer (2 * m + 1 - c.region_begin)
            ≡ some (node op c.global_size at 0 (2 * m + 1)) =
          h.holds (2 * m + 1 - c.region_begin) (omega arith)
          ∙ ap some (ap at (omega arith) ∙ sym (node-zero op c.global_size at (2 * m + 1))) in
        (s, h.right, rw (odd, value) refl)
    perform_reduce_at-inner (suc k) m low high =
        let index = shifted (suc k) (2 * m + 1) in
        let (s', right, e) =
          local_levels index (min (c.global_size - 1) (index + power_of_two (suc k) - 1)) (suc k)
            (inner-Subtree c.global_size (suc k) m (omega (arith, h.region))) (omega arith) low high
            (omega (arith, h.region, power-positive (suc k))) in
        (s', right, inner_levels k m (omega (arith, h.region, h.small)) _ e)

    -- B.
    pub perform_reduce_at-root :
        1 < c.global_size
        → c.region_begin ≡ 0
        → 0 < c.region_size
        → (s' : MessageBuffer A) × IsRight op c.global_size at (accepted s) s'
          × (perform_reduce_at op brings c 0 buffer s
              ≡ some (node op c.global_size at (tree_height c.global_size) 0, s'))
    unfolding perform_reduce_at
    perform_reduce_at-root several first some_local =
        let least = tree_height-least c.global_size (omega (arith, h.small)) in
        let low_enough : ltb (tree_height c.global_size) 64 ≡ true =
          lt→ltb (tree_height c.global_size) 64 (omega (arith, least.1 63 h.small)) in
        let tall : 0 < tree_height c.global_size = elim (dec_lt 0 (tree_height c.global_size)) [
          | yes above ↦ above
          | no flat ↦
              (let zero_height : tree_height c.global_size ≡ 0 = omega arith in
                absurd (omega (arith, least.0, ap power_of_two zero_height)))
        ] in
        let (s', right, e) =
          local_levels 0 (c.global_size - 1) (tree_height c.global_size)
            (root-Subtree c.global_size (omega arith) (omega (arith, h.small))) tall (omega arith)
            (omega arith) (omega arith) in
        (s', right, rw low_enough e)
