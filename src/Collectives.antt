-- ===== src/Collectives.antt =====
-- include/__mping/collectives and the resize policies of include/__mping/data_buffer.hpp: what the
-- vectorized operations share. Counts, displacements and sizes are numbers; the ranks of a
-- communicator of size `p` are the numbers below `p`, and what every rank passes is a function of the
-- rank. A failed assertion and an error code of MPI are `none`.
pub mod Mpi
pub mod RequiredSize
pub mod RoundTrip
pub mod Buffers
pub mod Alltoall
pub mod Alltoallv
pub mod Allgather
pub mod Exscan
pub mod Allgatherv
pub mod Gather
pub mod Gatherv
pub mod Bcast
pub mod Scatter
pub mod Scatterv
mod AllgatherTests
mod ExscanTests
mod ScatterTests
mod Tests
use mping.Prelude.{
  ℕ, zero, suc, ◌+◌, ◌-◌, ◌<◌, ◌≤◌, ◌≡◌, Bool, true, false, ◌&&◌, List, [], ◌∷◌, length, max, take,
  get_or, ltb, leb, if◌then◌else◌,
}
use mping.Blocks.{resize, write_at}

pub data BufferResizePolicy : Type 0 where
  no_resize grow_only resize_to_fit : BufferResizePolicy

-- `DataBuffer::resize_if_requested` with the `resize` of the buffer's policy.
abbrev pub resize_if_requested {ℓ} : {A : Type ℓ} → BufferResizePolicy → A → ℕ → List A → List A
resize_if_requested no_resize blank size buffer = buffer
resize_if_requested grow_only blank size buffer =
    if ltb (length buffer) size then resize blank size buffer else buffer
resize_if_requested resize_to_fit blank size buffer = resize blank size buffer

-- A parameter for counts or displacements: given by the caller, or to be computed into a container
-- with a resize policy.
pub data Param : Type 0 where
  given : List ℕ → Param
  out : BufferResizePolicy → List ℕ → Param

abbrev pub has_to_be_computed : Param → Bool
has_to_be_computed (given xs) = false
has_to_be_computed (out policy xs) = true

-- The parameter's buffer after `resize_if_requested` to the size of the communicator.
abbrev pub sized : ℕ → Param → List ℕ
sized p (given xs) = xs
sized p (out policy xs) = resize_if_requested policy 0 p xs

-- Its contents after the computed values, if they are asked for, have been written to its start.
abbrev pub filled : ℕ → Param → List ℕ → List ℕ
filled p (given xs) computed = xs
filled p (out policy xs) computed = write_at 0 computed (resize_if_requested policy 0 p xs)

-- The loop over the blocks of `compute_required_recv_buf_size_in_vectorized_communication`.
pub max_end : ℕ → List ℕ → List ℕ → ℕ
max_end acc [] displs = acc
max_end acc (c ∷ counts) [] = max_end (max acc c) counts []
max_end acc (c ∷ counts) (d ∷ displs) = max_end (max acc (c + d)) counts displs

pub compute_required_recv_buf_size : Bool → List ℕ → List ℕ → ℕ → ℕ
compute_required_recv_buf_size calculated counts displs p =
    if calculated
    then get_or counts (p - 1) 0 + get_or displs (p - 1) 0
    else max_end 0 (take p counts) (take p displs)

abbrev pub all_below : ℕ → (ℕ → Bool) → Bool
all_below zero f = true
all_below (suc n) f = f n && all_below n f

-- `is_same_on_all_ranks`, by its meaning on all ranks together.
abbrev pub same_on_all : ℕ → (ℕ → Bool) → Bool
same_on_all p f = all_below p (λ r. if f 0 then f r else (if f r then false else true))
