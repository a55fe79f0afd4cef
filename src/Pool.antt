-- ===== src/Pool.antt =====
-- include/__mping/request_pool.hpp, and `PooledRequest` of include/__mping/request.hpp. A request is a
-- number, and MPI_REQUEST_NULL is `none`. The vector of the requests has a capacity and stands in an
-- allocation, to which a reference refers. The calls of MPI are parameters; `none` is an error code.
pub mod References
pub mod Completion
mod Tests
use mping.Prelude.{
  ℕ, zero, suc, ◌+◌, ◌-◌, ◌<◌, ◌≤◌, ◌≡◌, Bool, true, false, List, [], ◌∷◌, ◌++◌, Option, none, some,
  length, ltb, leb, ◌==◌, get_elem?, set, if◌then◌else◌, kassert, ◌>>=◌, ◌>>◌,
}
use mping.Blocks.{write_at}
use mping.Collectives.{BufferResizePolicy, resize_if_requested}

abbrev pub Request : Type 0
Request = Option ℕ

pub record RequestPool : Type 0 where
  pub requests : List Request
  pub capacity : ℕ
  pub allocation : ℕ

-- An index, and a reference to the element with this index of an allocation.
pub record PooledRequest : Type 0 where
  pub index : ℕ
  pub allocation : ℕ

abbrev pub empty_pool : RequestPool
empty_pool = record { requests = []; capacity = 0; allocation = 0 }

abbrev pub index_end : RequestPool → ℕ
index_end pool = length pool.requests

abbrev pub num_requests : RequestPool → ℕ
num_requests pool = length pool.requests

-- `emplace_back(MPI_REQUEST_NULL)`; `grow` is the capacity that the vector takes for a size.
abbrev pub emplace_back : (ℕ → ℕ) → RequestPool → RequestPool
emplace_back grow pool =
    if ltb (length pool.requests) pool.capacity
    then record pool { requests = pool.requests ++ none ∷ [] }
    else record {
      requests = pool.requests ++ none ∷ [];
      capacity = grow (suc (length pool.requests));
      allocation = suc pool.allocation;
    }

pub get_request : (ℕ → ℕ) → RequestPool → PooledRequest × RequestPool
get_request grow pool =
    let pool' = emplace_back grow pool in
    (record { index = num_requests pool' - 1; allocation = pool'.allocation }, pool')

-- What an MPI call writes through `request_ptr()`: the request of the operation that it starts. To write
-- through a reference that dangles is undefined.
pub write_request : PooledRequest → ℕ → RequestPool → Option RequestPool
write_request r q pool =
    kassert (r.allocation == pool.allocation)
    >> (kassert (ltb r.index (length pool.requests))
        >> some (record pool { requests = set pool.requests r.index (some q) }))

-- What happens with the statuses: they are ignored, or go to a container with a resize policy.
pub data Statuses (S : Type 0) : Type 0 where
  ignored : Statuses S
  statuses_out : BufferResizePolicy → List S → Statuses S

-- `MPI_Waitall` and `MPI_Testall`: the flag, the statuses and the requests after the call.
abbrev pub MpiWaitall : Type 0 → Type 0
MpiWaitall S = List Request → Option (List S × List Request)

abbrev pub MpiTestall : Type 0 → Type 0
MpiTestall S = List Request → Option (Bool × (List S × List Request))

-- `MPI_Waitany` and `MPI_Testany`: the index, `none` for MPI_UNDEFINED, and the status.
abbrev pub MpiWaitany : Type 0 → Type 0
MpiWaitany S = List Request → Option (Option ℕ × (S × List Request))

abbrev pub MpiTestany : Type 0 → Type 0
MpiTestany S = List Request → Option (Bool × (Option ℕ × (S × List Request)))

abbrev pub with_requests : RequestPool → List Request → RequestPool
with_requests pool requests = record pool { requests = requests }

abbrev pub index_of : RequestPool → Option ℕ → ℕ
index_of pool none = index_end pool
index_of pool (some i) = i

module _ {S : Type 0} (blank : S) where
  -- The container as MPI gets it.
  abbrev pub room_for : ℕ → Statuses S → Option (List S)
  room_for n ignored = some []
  room_for n (statuses_out policy buffer) =
      let resized = resize_if_requested policy blank n buffer in
      kassert (leb n (length resized)) >> some resized

  -- The container after MPI has written the statuses to its start.
  abbrev pub extracted : Statuses S → List S → List S → Option (List S)
  extracted ignored statuses buffer = none
  extracted (statuses_out policy xs) statuses buffer = some (write_at 0 statuses buffer)

  pub wait_all : MpiWaitall S → Statuses S → RequestPool → Option (Option (List S) × RequestPool)
  wait_all mpi param pool = do
    buffer ← room_for (num_requests pool) param
    answer ← mpi pool.requests
    some (extracted param answer.0 buffer, with_requests pool answer.1)

  -- Without statuses the result is whether all have completed; with statuses it is an optional.
  pub test_all :
      MpiTestall S → Statuses S → RequestPool → Option (Bool × (Option (List S) × RequestPool))
  test_all mpi param pool = do
    buffer ← room_for (num_requests pool) param
    answer ← mpi pool.requests
    let (succeeded, (statuses, requests)) = answer
    some (
      succeeded,
      (if succeeded then extracted param statuses buffer else none, with_requests pool requests),
    )

module _ {S : Type 0} where
  pub wait_any : MpiWaitany S → RequestPool → Option (ℕ × (S × RequestPool))
  wait_any mpi pool = do
    answer ← mpi pool.requests
    let (index, (status, requests)) = answer
    some (index_of pool index, (status, with_requests pool requests))

  pub test_any : MpiTestany S → RequestPool → Option (Option (ℕ × S) × RequestPool)
  test_any mpi pool = do
    answer ← mpi pool.requests
    let (flag, (index, (status, requests))) = answer
    some (if flag then some (index_of pool index, status) else none, with_requests pool requests)
