-- ===== src/Collectives/Alltoallv/Calls.antt =====
-- The calls of `MPI_Alltoallv` that are legal, and the arguments from which they are made.
use mping.Prelude.{ℕ, ◌+◌, ◌<◌, ◌≤◌, ◌≡◌, false, List, [], length, get_or, exclusive_scan, some}
use mping.Blocks.{slice, write_all, tabulate_from}
use mping.Collectives.{resize_to_fit, Param, filled, sized, out}
use mping.Collectives.Alltoallv.{Args, Call, MpiAlltoallv}

-- Calls that MPI accepts: what a rank expects of another is what that rank sends, all blocks lie in
-- their buffers, and the received blocks do not overlap.
pub record IsLegal {ℓ} {A : Type ℓ} (p : ℕ) (calls : ℕ → Call A) : Type ℓ where
  pub agree :
      (r j : ℕ)
      → r < p
      → j < p
      → get_or (calls r).recv_counts j 0 ≡ get_or (calls j).send_counts r 0
  pub sends :
      (r j : ℕ)
      → r < p
      → j < p
      → get_or (calls r).send_displs j 0 + get_or (calls r).send_counts j 0
        ≤ length (calls r).send_buf
  pub fits :
      (r j : ℕ)
      → r < p
      → j < p
      → get_or (calls r).recv_displs j 0 + get_or (calls r).recv_counts j 0
        ≤ length (calls r).recv_buf
  pub apart :
      (r i j : ℕ)
      → r < p
      → i < j
      → j < p
      → get_or (calls r).recv_displs i 0 + get_or (calls r).recv_counts i 0
        ≤ get_or (calls r).recv_displs j 0

-- What MPI documents of `MPI_Alltoallv` for such calls: the block of each sender is written at its
-- displacement.
abbrev pub Delivers {ℓ} : {A : Type ℓ} → MpiAlltoallv A → Type ℓ
Delivers {A} mpi_v =
    (p : ℕ) (calls : ℕ → Call A)
    → IsLegal p calls
    → (received : ℕ → List A) × (mpi_v p calls ≡ some received)
      × ((r : ℕ)
          → r < p
          → received r
            ≡ write_all (calls r).recv_displs
                (tabulate_from 0 p (λ j.
                  slice (calls j).send_buf (get_or (calls j).send_displs r 0)
                    (get_or (calls j).send_counts r 0)))
                (calls r).recv_buf)

module _ {ℓ} {A : Type ℓ} where
  -- The parameters of a call with a send buffer, send counts and maybe send displacements.
  abbrev pub with_params : Param → List A → List ℕ → Args A
  with_params send_displs send_buf send_counts = record {
    send_buf = send_buf;
    send_counts = send_counts;
    send_displs = send_displs;
    recv_counts = out resize_to_fit [];
    recv_displs = out resize_to_fit [];
    recv_buf = [];
    recv_policy = resize_to_fit;
    send_type_given = false;
    recv_type_given = false;
  }

  abbrev pub with_defaults : List A → List ℕ → Args A
  with_defaults = with_params (out resize_to_fit [])

-- The displacements of a rank are, or will be, the prefix sums of its counts.
pub record IsLaidOut (p : ℕ) (displs : Param) (counts : List ℕ) : Type 0 where
  pub scan : filled p displs (exclusive_scan 0 counts) ≡ exclusive_scan 0 counts
  pub room : p ≤ length (sized p displs)
