-- ===== src/Environment/Tests.antt =====
-- A program with two environments, of which the first one owns MPI.
use mping.Prelude.{ℕ, ◌≡◌, refl, List, [], ◌∷◌, some, none}
use mping.Environment.{
  State, Operation, constructs, destroys, commits, inits, init_finalize_if_necessary, run, start,
  operate, destroy, commit_and_register, register_mpi_type, construct, init, destroy_object,
  free_registered_mpi_types, MpiCall, mpi_init, mpi_finalize, mpi_type_commit, mpi_type_free,
}
use mping.Environment.Calls.{asked_for, run-Once}
use mping.Environment.Steps.{Once, releases}

abbrev program : List Operation
program =
    constructs init_finalize_if_necessary
    ∷ constructs init_finalize_if_necessary
    ∷ commits 5
    ∷ destroys 1
    ∷ inits
    ∷ destroys 0
    ∷ []

-- The second environment leaves MPI alone, and the first one frees the type and finalizes.
abbrev program_calls : List MpiCall
program_calls = mpi_init ∷ mpi_type_commit 5 ∷ mpi_type_free 5 ∷ mpi_finalize ∷ []

abbrev final : State
final = record { calls = program_calls; registered_mpi_types = []; objects = none ∷ none ∷ [] }

run-program : run program start ≡ some final
unfolding start run operate destroy commit_and_register register_mpi_type construct init
    destroy_object free_registered_mpi_types
run-program = refl

run-Once_example : Once final × ((t : ℕ) → (t ≡ 0 → ⊥) → releases t final ≡ asked_for program t)
run-Once_example = run-Once program final run-program
