-- ===== src/Comm/Tests.antt =====
-- The communicator's theorems at concrete communicators, and runs of its operations.
use mping.Prelude.{◌∙◌, ◌≡◌, refl, arith, false, List, [], ◌∷◌, some}
use mping.Prelude.Int.{pos, negsuc, ◌+ℤ◌, emod}
use mping.Comm.{Comm, handle, rank_shifted_cyclic, construct}
use mping.Comm.Ranks.{IsValid, rank_shifted_cyclic_lem, set_root_signed_lem}
use mping.Comm.Ownership.{Call, create, copies, moves, move_assigns, destroys, disowns, run, start}
use mping.Comm.Ownership.Conserved.{IsConserved, run-IsConserved}

abbrev four : Comm
four = record {
  rank = 1;
  size = 4;
  comm = handle 0;
  root = 0;
  default_tag = pos 0;
  owns_mpi_comm = false;
}

four-IsValid : IsValid four
four-IsValid = omega arith

-- Three ranks back from rank 1 of 4 is rank 2.
cyclic_run : rank_shifted_cyclic four (negsuc 2) ≡ some 2
cyclic_run = rank_shifted_cyclic_lem four (negsuc 2) four-IsValid (omega arith) ∙ run_emod
  where
    run_emod : some (emod (pos 1 +ℤ negsuc 2) 4) ≡ some 2
    run_emod = unfold emod ◌+ℤ◌ in refl

rank_shifted_cyclic_lem_example :
    rank_shifted_cyclic four (negsuc 5) ≡ some (emod (pos 1 +ℤ negsuc 5) 4)
rank_shifted_cyclic_lem_example = rank_shifted_cyclic_lem four (negsuc 5) four-IsValid (omega arith)

abbrev calls : List Call
calls =
    create four ∷ copies 0 ∷ moves 1 ∷ move_assigns 0 1 ∷ destroys 2 ∷ destroys 0 ∷ disowns 0 ∷ []

run-IsConserved_example : IsConserved (run start calls)
run-IsConserved_example = run-IsConserved calls

constructed : construct (handle 0) 1 4 (pos 2) false ≡ some (record four { root = 2 })
unfolding construct
constructed = set_root_signed_lem four (pos 2) (omega arith)
