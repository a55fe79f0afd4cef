-- ===== src/Reduce.antt =====
-- include/__mping/plugin/reproducible_reduce.hpp: the message buffer that collects intermediate
-- results for other ranks, the heights of the reduction tree, and the map from start indices to
-- ranks. `Reduce.Buffer` holds the buffer's operations.
pub mod Bits
pub mod Buffer
pub mod Communicator
pub mod Heights
pub mod Regions
pub mod Tree
mod Tests
use mping.Prelude.{
  ℕ, zero, suc, ◌+◌, ◌-◌, ◌*◌, ◌/◌, ltb, leb, ◌==◌, if◌then◌else◌, List, [], ◌∷◌, get_or, Option,
  some, none,
}

-- `while (i >>= 1) ++target_value;` on a word with at most `fuel` bits behind the first.
abbrev pub shift_loop : ℕ → ℕ → ℕ → ℕ
shift_loop zero i target_value = target_value
shift_loop (suc fuel) i target_value =
    let rest = shift_loop fuel (i / 2) (suc target_value) in
    if i / 2 == 0 then target_value else rest

-- `log2l` of a `size_t`
unfoldable pub log2l : ℕ → ℕ
log2l value = shift_loop 64 value 0

-- `1UL << n`, for `n` below the width of the word.
abbrev pub power_of_two : ℕ → ℕ
power_of_two zero = 1
power_of_two (suc n) = 2 * power_of_two n

pub tree_height : ℕ → ℕ
tree_height global_size =
    if global_size == 0
    then 0
    else (if ltb (power_of_two (log2l global_size)) global_size
        then log2l global_size + 1
        else log2l global_size)

-- `start_indices.upper_bound(index)`: the position of the first entry whose key is larger.
abbrev pub upper_bound_position : List (ℕ × ℕ) → ℕ → ℕ
upper_bound_position [] index = 0
upper_bound_position ((start, rank) ∷ start_indices) index =
    let rest = upper_bound_position start_indices index in if ltb index start then 0 else suc rest

-- `none` where the assertion that the first entry is not larger fails.
abbrev pub tree_rank_from_index_map : List (ℕ × ℕ) → ℕ → Option ℕ
tree_rank_from_index_map start_indices index =
    let it = upper_bound_position start_indices index in
    if it == 0 then none else some (get_or start_indices (it - 1) (0, 0)).1
