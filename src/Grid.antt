-- ===== src/Grid.antt =====
-- include/__mping/plugin/alltoall_grid.hpp: the two-dimensional grid over the ranks of a communicator.
-- Here its shape and the row and column that each rank joins; the exchanges stand in the child modules.
-- `MPI_Comm_split` is a parameter. The square root is the exact one, as `std::sqrt` of a size is.
pub mod Sqrt
pub mod Members
pub mod Shape
pub mod Routing
pub mod Places
pub mod Relays
pub mod Exchange
pub mod Alltoallv
mod Tests
use mping.Prelude.{
  ℕ, zero, suc, ◌+◌, ◌*◌, ◌/◌, ◌%◌, Bool, List, [], ◌∷◌, ◌++◌, Option, none, some, ltb, leb, ◌==◌,
  get_elem?, if◌then◌else◌, ◌>>=◌,
}
use Sqrt.{floor_sqrt, ceil_sqrt}

pub record GridPosition : Type 0 where
  pub row_index : ℕ
  pub col_index : ℕ

-- `_num_columns`, for a communicator of `size` ranks.
pub num_columns : ℕ → ℕ
num_columns size =
    let threshold = floor_sqrt size * ceil_sqrt size in
    if leb threshold size then ceil_sqrt size else floor_sqrt size

unfoldable pub num_full_rows : ℕ → ℕ
num_full_rows size = size / num_columns size

unfoldable pub size_complete_rectangle : ℕ → ℕ
size_complete_rectangle size = num_columns size * num_full_rows size

pub pos_in_complete_grid : ℕ → ℕ → GridPosition
pos_in_complete_grid size rank = record {
  row_index = rank / num_columns size;
  col_index = rank % num_columns size;
}

-- The colors that the constructor gives to the two `MPI_Comm_split` calls: a rank of the incomplete
-- last row joins a row by its column.
pub row_color : ℕ → ℕ → ℕ
unfolding pos_in_complete_grid
row_color size rank =
    if leb (size_complete_rectangle size) rank
    then rank % num_columns size
    else (pos_in_complete_grid size rank).row_index

pub col_color : ℕ → ℕ → ℕ
unfolding pos_in_complete_grid
col_color size rank = (pos_in_complete_grid size rank).col_index

pub get_destination_in_rowwise_exchange : ℕ → ℕ → ℕ
unfolding pos_in_complete_grid
get_destination_in_rowwise_exchange size destination =
    (pos_in_complete_grid size destination).col_index

pub get_destination_in_colwise_exchange : ℕ → ℕ → ℕ
unfolding pos_in_complete_grid
get_destination_in_colwise_exchange size destination =
    (pos_in_complete_grid size destination).row_index

-- `split color size rank` is the list of the ranks in the communicator that `rank` gets.
abbrev pub Split : Type 0
Split = (ℕ → ℕ) → ℕ → ℕ → List ℕ

-- The way of an element from `source` to `destination`: by the row exchange to a rank of the source's
-- row, then by the column exchange within that rank's column.
pub route : Split → ℕ → ℕ → ℕ → Option ℕ
route split size source destination = do
  relay ←
      get_elem? (split (row_color size) size source)
        (get_destination_in_rowwise_exchange size destination)
  get_elem? (split (col_color size) size relay)
      (get_destination_in_colwise_exchange size destination)
