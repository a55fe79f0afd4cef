-- ===== src/Reduce/Communicator.antt =====
-- `ReproducibleCommunicator` of include/__mping/plugin/reproducible_reduce.hpp: the reduction of the part
-- of a subtree that a rank holds. A read or write outside a buffer is `none`. The reduce buffer is scratch
-- memory: what one reduction leaves in it is dropped, and the theorems hold for any contents.
pub mod Pairs
pub mod Levels
pub mod Shapes
pub mod Values
pub mod Elements
pub mod Messages
pub mod Lone
mod Tests
use mping.Prelude.{
  ℕ, zero, suc, ◌+◌, ◌-◌, ◌*◌, ◌/◌, ◌%◌, ◌≤◌, ◌<◌, Bool, true, false, ◌||◌, List, [], ◌∷◌, ◌++◌,
  Option, none, some, length, get_elem?, set, drop, min, ltb, leb, ◌==◌, if◌then◌else◌, kassert,
  ◌>>=◌, ◌>>◌,
}
use mping.Reduce.{power_of_two, tree_height, log2l, tree_rank_from_index_map}
use mping.Reduce.Bits.{tree_parent, tree_subtree_size}
use mping.Reduce.Buffer.{MessageBuffer, MessageBufferEntry, get, put, flush, wait}

pub record ReproducibleCommunicator {ℓ} (A : Type ℓ) : Type ℓ where
  pub start_indices : List (ℕ × ℕ)
  pub region_begin : ℕ
  pub region_size : ℕ
  pub global_size : ℕ
  pub reduce_buffer : List A

-- `subtree_height`
abbrev pub subtree_height : ℕ → ℕ
subtree_height index = log2l (tree_subtree_size index)

module _ {ℓ} {A : Type ℓ} where
  -- `source_buffer[x]`; without a buffer of its own the source is the destination.
  abbrev pub source_at : Option (List A) → List A → ℕ → Option A
  source_at none destination_buffer x = get_elem? destination_buffer x
  source_at (some source_buffer) destination_buffer x = get_elem? source_buffer x

  abbrev pub write : List A → ℕ → A → Option (List A)
  write destination_buffer i v =
      kassert (ltb i (length destination_buffer)) >> some (set destination_buffer i v)

module _ {ℓ} {A : Type ℓ} (op : A → A → A) where
  -- The loop over `x`, which is twice the number of the elements written.
  pub pair_loop : Option (List A) → ℕ → ℕ → List A → Option (List A)
  pair_loop source zero elements_written destination_buffer = some destination_buffer
  pair_loop source (suc pairs) elements_written destination_buffer = do
    a ← source_at source destination_buffer (2 * elements_written)
    b ← source_at source destination_buffer (2 * elements_written + 1)
    destination ← write destination_buffer elements_written (op a b)
    pair_loop source pairs (suc elements_written) destination

  module _ (start_indices : List (ℕ × ℕ)) (brings : ℕ → ℕ → Option (List (MessageBufferEntry A)))
      (index max_x : ℕ) where
    -- The element that has no partner among the local ones.
    pub combine_last : ℕ → A → MessageBuffer A → Option (A × MessageBuffer A)
    combine_last index_b element_a s = if ltb max_x index_b then some (element_a, s) else (do
      source_rank ← tree_rank_from_index_map start_indices index_b
      answer ← get (λ r. brings r index_b) source_rank index_b s
      some (op element_a answer.0, answer.1))

    pub finish_level :
        ℕ → Option (List A) → ℕ → List A → MessageBuffer A → Option (ℕ × List A × MessageBuffer A)
    finish_level stride source elements_in_buffer destination_buffer s =
        let elements_written = elements_in_buffer / 2 in
        if elements_in_buffer - 2 * elements_written == 0
        then some (elements_written, destination_buffer, s)
        else (do
          element_a ← source_at source destination_buffer (elements_in_buffer - 1)
          last ← combine_last (index + (elements_in_buffer - 1) * stride + stride) element_a s
          destination ← write destination_buffer elements_written last.0
          some (elements_written + 1, destination, last.1))

    -- The loop over the levels, from level `y + 1` on.
    pub level_loop :
        ℕ → ℕ → Option (List A) → ℕ → List A → MessageBuffer A → Option (A × MessageBuffer A)
    level_loop zero y source elements_in_buffer destination_buffer s = do
      kassert (elements_in_buffer == 1)
      result ← get_elem? destination_buffer 0
      some (result, s)
    level_loop (suc levels) y source elements_in_buffer destination_buffer s = do
      paired ← pair_loop source (elements_in_buffer / 2) 0 destination_buffer
      level ← finish_level (power_of_two y) source elements_in_buffer paired s
      level_loop levels (suc y) none level.0 level.1 level.2

  -- `_perform_reduce(index, buffer, op)`; `brings` has the message that comes from a rank when an index
  -- is waited for.
  pub perform_reduce_at :
      (ℕ → ℕ → Option (List (MessageBufferEntry A)))
      → ReproducibleCommunicator A
      → ℕ
      → List A
      → MessageBuffer A
      → Option (A × MessageBuffer A)
  perform_reduce_at brings c index buffer s =
      if index % 2 == 1
      then (do value ← get_elem? buffer (index - c.region_begin); some (value, s))
      else (let max_x =
            if index == 0
            then c.global_size - 1
            else min (c.global_size - 1) (index + tree_subtree_size index - 1) in
          let max_y = if index == 0 then tree_height c.global_size else subtree_height index in
          let largest_local_index = min max_x (c.region_begin + c.region_size - 1) in
          kassert (ltb max_y 64)
          >> level_loop c.start_indices brings index max_x max_y 0
              (some (drop (index - c.region_begin) buffer)) (largest_local_index + 1 - index)
              c.reduce_buffer s)

  -- A subtree whose parent is on another rank, reduced and put into the buffer for that rank.
  pub send_subtree :
      (ℕ → ℕ → Option (List (MessageBufferEntry A)))
      → ReproducibleCommunicator A
      → List A
      → ℕ
      → MessageBuffer A
      → Option (MessageBuffer A)
  send_subtree brings c buffer index s = do
    parent ← tree_parent index
    target_rank ← tree_rank_from_index_map c.start_indices parent
    value ←
        perform_reduce_at brings c index buffer
          (if ltb 16 (tree_subtree_size index) then flush s else s)
    put target_rank index value.0 value.1

  pub send_subtrees :
      (ℕ → ℕ → Option (List (MessageBufferEntry A)))
      → ReproducibleCommunicator A
      → List A
      → List ℕ
      → MessageBuffer A
      → Option (MessageBuffer A)
  send_subtrees brings c buffer [] s = some s
  send_subtrees brings c buffer (index ∷ elements) s = do
    s' ← send_subtree brings c buffer index s
    send_subtrees brings c buffer elements s'

  -- `_perform_reduce(buffer, op)` up to the broadcast: the origin has the result.
  pub perform_reduce :
      (ℕ → ℕ → Option (List (MessageBufferEntry A)))
      → ReproducibleCommunicator A
      → List ℕ
      → Bool
      → List A
      → MessageBuffer A
      → Option (Option A × MessageBuffer A)
  perform_reduce brings c rank_intersecting_elements at_origin buffer s = do
    sent ← send_subtrees brings c buffer rank_intersecting_elements s
    let waited = wait (flush sent)
    if at_origin
        then (do
          result ← perform_reduce_at brings c 0 buffer waited
          some (some result.0, result.1))
        else some (none, waited)

-- The loop of `tree_rank_intersecting_elements`, with the assertion on the parents.
pub intersecting_loop : ℕ → ℕ → ℕ → ℕ → Option (List ℕ)
intersecting_loop zero region_begin region_end index = none
intersecting_loop (suc fuel) region_begin region_end index =
    let next = (do
      parent ← tree_parent index
      kassert (ltb parent region_begin)
      rest ← intersecting_loop fuel region_begin region_end (index + tree_subtree_size index)
      some (index ∷ rest)) in
    if ltb index region_end then next else some []

pub tree_rank_intersecting_elements : ℕ → ℕ → Option (List ℕ)
tree_rank_intersecting_elements region_begin region_end =
    let region_size = region_end - region_begin in
    if region_begin == 0 || region_size == 0
    then some []
    else intersecting_loop (region_size + 1) region_begin region_end region_begin
