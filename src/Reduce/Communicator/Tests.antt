-- ===== src/Reduce/Communicator/Tests.antt =====
-- Three elements on two ranks, added up.
use mping.Prelude.{
  ℕ, zero, suc, ◌+◌, ◌*◌, ◌^◌, ◌<◌, ◌≡◌, refl, ap, ◌∙◌, List, [], ◌∷◌, ◌++◌, Option, some, none,
  get_elem?, get_or, inl, true, false, arith,
}
use mping.Reduce.{log2l, tree_height, power_of_two}
use mping.Reduce.Bits.{shifted, tree_subtree_size, tree_subtree_size-shifted, shifted-le}
use mping.Reduce.Tree.{node, shifted-scale}
use mping.Reduce.Buffer.{MessageBuffer, MessageBufferEntry, fresh}
use mping.Reduce.Buffer.Fifo.{accepted, fresh-IsValid}
use mping.Reduce.Communicator.{
  ReproducibleCommunicator, subtree_height, perform_reduce_at, perform_reduce,
  tree_rank_intersecting_elements,
}
use mping.Reduce.Communicator.Levels.{Right, Brings, IsRight}
use mping.Reduce.Communicator.Shapes.{log2l-power}
use mping.Reduce.Communicator.Values.{IsSetUp}
use mping.Reduce.Communicator.Elements.{Tiles, tree_rank_intersecting_elements-Tiles}
use mping.Reduce.Communicator.Messages.{Sent, perform_reduce-Sent, perform_reduce-origin}
use mping.Reduce.Communicator.Lone.{perform_reduce_at-lone}

abbrev three : ℕ → ℕ
three i = get_or (5 ∷ 6 ∷ 7 ∷ []) i 0

abbrev two_ranks : List (ℕ × ℕ)
two_ranks = (0, 0) ∷ (2, 1) ∷ (3, 2) ∷ []

abbrev first_rank : ReproducibleCommunicator ℕ
first_rank = record {
  start_indices = two_ranks;
  region_begin = 0;
  region_size = 2;
  global_size = 3;
  reduce_buffer = 0 ∷ 0 ∷ [];
}

abbrev second_rank : ReproducibleCommunicator ℕ
second_rank = record {
  start_indices = two_ranks;
  region_begin = 2;
  region_size = 1;
  global_size = 3;
  reduce_buffer = 0 ∷ [];
}

-- Every message has the value of the subtree that is waited for.
abbrev answer : ℕ → ℕ → Option (List (MessageBufferEntry ℕ))
answer source i = some (record { index = i; value = node ◌+◌ 3 three (subtree_height i) i } ∷ [])

answer-Right : (i : ℕ) → i < 3 → Right ◌+◌ 3 three i (node ◌+◌ 3 three (subtree_height i) i)
answer-Right i small y m e =
    let word : shifted y (2 * m + 1) < 2 ^ 64 = omega (arith, e) in
    let size : tree_subtree_size i ≡ power_of_two y =
      ap tree_subtree_size e
      ∙ tree_subtree_size-shifted y m word
      ∙ (shifted-scale y 1 ∙ omega arith) in
    let fits : power_of_two y < 2 ^ 64 = omega (arith, shifted-le y m, shifted-scale y 1) in
    ap (λ h. node ◌+◌ 3 three h i) (ap log2l size ∙ log2l-power y fits)

answer-Brings : Brings ◌+◌ 3 three two_ranks answer
answer-Brings source i inside ranked = (_, refl, inl refl, (answer-Right i inside, tt))

first_rank-IsSetUp : IsSetUp ◌+◌ three first_rank answer (5 ∷ 6 ∷ []) (fresh 0 16)
unfolding fresh
first_rank-IsSetUp = record {
  first_rank = 0;
  rest = _;
  from_zero = refl;
  region = omega arith;
  room = refl;
  holds = holds;
  answers = answer-Brings;
  right = (fresh-IsValid 0 16, (tt, tt), refl);
  small = omega arith;
}
  where
    holds : (i : ℕ) → i < 2 → get_elem? (5 ∷ 6 ∷ []) i ≡ some (three (0 + i))
    holds zero l = refl
    holds (suc zero) l = refl
    holds (suc (suc i)) l = absurd (omega arith)

second_rank-IsSetUp : IsSetUp ◌+◌ three second_rank answer (7 ∷ []) (fresh 0 16)
unfolding fresh
second_rank-IsSetUp = record {
  first_rank = 0;
  rest = _;
  from_zero = refl;
  region = omega arith;
  room = refl;
  holds = holds;
  answers = answer-Brings;
  right = (fresh-IsValid 0 16, (tt, tt), refl);
  small = omega arith;
}
  where
    holds : (i : ℕ) → i < 1 → get_elem? (7 ∷ []) i ≡ some (three (2 + i))
    holds zero l = refl
    holds (suc i) l = absurd (omega arith)

perform_reduce-origin_example :
    (s' : MessageBuffer ℕ) × (tree_rank_intersecting_elements 0 2 ≡ some [])
    × (perform_reduce ◌+◌ answer first_rank [] true (5 ∷ 6 ∷ []) (fresh 0 16)
        ≡ some (some (node ◌+◌ 3 three (tree_height 3) 0), s'))
    × IsRight ◌+◌ 3 three (accepted (fresh 0 16)) s'
perform_reduce-origin_example =
    perform_reduce-origin ◌+◌ three first_rank answer (5 ∷ 6 ∷ []) (fresh 0 16) first_rank-IsSetUp
      (omega arith) refl (omega arith)

perform_reduce-Sent_example :
    (elements : List ℕ) × (messages : List (ℕ × MessageBufferEntry ℕ)) × (s' : MessageBuffer ℕ)
    × (tree_rank_intersecting_elements 2 3 ≡ some elements)
    × Tiles 2 3 2 elements
    × (perform_reduce ◌+◌ answer second_rank elements false (7 ∷ []) (fresh 0 16) ≡ some (none, s'))
    × Sent ◌+◌ three second_rank elements messages
    × IsRight ◌+◌ 3 three (accepted (fresh 0 16) ++ messages) s'
perform_reduce-Sent_example =
    perform_reduce-Sent ◌+◌ three second_rank answer (7 ∷ []) (fresh 0 16) second_rank-IsSetUp
      (omega arith)

abbrev lone_rank : ReproducibleCommunicator ℕ
lone_rank = record {
  start_indices = (0, 0) ∷ (1, 1) ∷ [];
  region_begin = 0;
  region_size = 1;
  global_size = 1;
  reduce_buffer = 0 ∷ [];
}

perform_reduce_at-lone_example :
    perform_reduce_at ◌+◌ answer lone_rank 0 (7 ∷ []) (fresh 0 16) ≡ some (0, (fresh 0 16))
perform_reduce_at-lone_example =
    perform_reduce_at-lone ◌+◌ answer lone_rank (7 ∷ []) (fresh 0 16) 0 refl refl refl refl

tree_rank_intersecting_elements-Tiles_example :
    (elements : List ℕ) × (tree_rank_intersecting_elements 3 9 ≡ some elements)
    × Tiles 3 9 3 elements
tree_rank_intersecting_elements-Tiles_example =
    tree_rank_intersecting_elements-Tiles 3 9 (omega arith) (omega arith) (omega arith)
