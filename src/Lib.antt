-- ===== src/Lib.antt =====
-- A C++ library of wrappers around MPI: communicators, collective operations with named parameters, and
-- plugins on top of them. All the code modelled here stands under include/__mping.
--
-- The parts, from the bottom up:
--   Casts        checking_casts.hpp: `in_range`, `asserting_cast`, `throwing_cast`. An integer type is a
--                width and a signedness, a value an integer, and conversions wrap around.
--   Comm         communicator.hpp: the fields of `Communicator`, its rank, size, root and shift functions;
--                Comm.Ownership: its special members over a list of live objects and the MPI handles.
--   Environment  environment.hpp: the calls of MPI_Init and MPI_Finalize by `Environment` objects, the
--                registered data types and the buffers that they attach.
--   RankRanges   rank_ranges.hpp: `RankRanges::contains`.
--   Collectives  alltoall.hpp, gather.hpp, allgather.hpp, bcast.hpp, scatter.hpp, exscan.hpp and
--                collectives_helpers.hpp of collectives/, and the resize policies of data_buffer.hpp. A call
--                is one function of what all ranks pass; `alltoallv`, `gatherv`, `allgatherv` and `scatterv`
--                get missing counts by a call of `alltoall`, `gather`, `allgather` and `scatter`, and
--                `scatter` by a call of `bcast_single`.
--   SameOnAll    comm_helper/is_same_on_all_ranks.hpp: the reduction behind `is_same_on_all_ranks`.
--   Grid         plugin/alltoall_grid.hpp: Grid has the shape of the grid and the colors of its rows and
--                columns, Grid.Routing the way of an element, Grid.Exchange the buffers of the row and of
--                the column exchange and the ordering of the received elements, Grid.Alltoallv the two
--                exchanges on all ranks, as calls of the communicator's `alltoallv` on rows and columns.
--   Reduce       plugin/reproducible_reduce.hpp: Reduce.Buffer is `MessageBuffer`, Reduce has `log2l`,
--                `tree_height` and the map from start indices to ranks, Reduce.Bits the parents and the
--                sizes of subtrees, Reduce.Tree the reduction tree on a whole array, and
--                Reduce.Communicator the reduction of `ReproducibleCommunicator` on one rank.
--   Timer        measurements/timer.hpp and measurements/internal/measurement_utils.hpp: the tree of
--                measurements, its nodes in a store that maps addresses to nodes.
--   Pool         request_pool.hpp and `PooledRequest` of request.hpp: the requests, the references to them
--                and the wait and test functions.
--   Flatten      utils/flatten.hpp: `with_flattened`, for nested and for sparse containers of messages.
--   Sort         plugin/sort.hpp: the oversampling ratio, the splitters and the buckets.
--   Sparse       plugin/alltoall_sparse.hpp: the sparse exchange as a step relation on the state of all
--                ranks, with the messages in flight.
--   Buckets, Blocks  the counting and placing loops of the plugins, and buffers made of blocks.
--   Prelude      numbers, lists, prefix sums, signed integers, calls that can fail.
--
-- How the code is modelled: a call that can fail is an Option; `none` is a failed assertion, a thrown error
-- or undefined behaviour, and assertions are enabled. Counts, displacements and sizes of buffers are
-- natural numbers: that they fit into an `int` is not modelled outside Casts, Comm and RankRanges. MPI is
-- a parameter wherever a result depends on it, with what its standard documents as a hypothesis;
-- Collectives.Mpi has functions that meet these hypotheses. In Environment and Comm.Ownership the calls
-- of MPI are recorded and taken to succeed. The shift loop of `log2l` runs on 64 steps of fuel, one for
-- each bit of a `size_t`; the loop over the intersecting elements runs on one step more than the region
-- has elements; all other loops are structural.
--
-- Not modelled: the selection of named parameters, which the compiler does; the non-blocking and
-- point-to-point calls, `reduce`, `allreduce` and `scan`, data types, operations and serialization, which
-- hand their arguments on to MPI or to a third-party library; the in-place `alltoall` and `exscan_single`;
-- the aggregation and the output of measurements; the broadcast at the end of the reproducible reduce and
-- the checks of its distribution; the exchange of the sort plugin; the dispatch plugin.
pub mod Prelude
pub mod Casts
pub mod Comm
pub mod Grid
pub mod Buckets
pub mod Blocks
pub mod Collectives
pub mod Reduce
pub mod Timer
pub mod Environment
pub mod RankRanges
pub mod Pool
pub mod Flatten
pub mod Sort
pub mod Sparse
pub mod SameOnAll
