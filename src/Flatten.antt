-- ===== src/Flatten.antt =====
-- include/__mping/utils/flatten.hpp: `with_flattened`, which makes one send buffer with counts and
-- displacements out of a message for each rank, or out of pairs of a destination and a message. A count
-- is written to an entry that exists; `std::copy_n` behind the end of the buffer is not modelled.
pub mod Messages
pub mod Sent
pub mod Sparse
mod Tests
use mping.Prelude.{
  ℕ, zero, suc, ◌+◌, ◌-◌, List, [], ◌∷◌, length, get_or, set, replicate, exclusive_scan,
}
use mping.Blocks.{write_at, write_all}

pub record Flattened {ℓ} (A : Type ℓ) : Type ℓ where
  pub send_buf : List A
  pub send_counts : List ℕ
  pub send_displs : List ℕ

-- `.back()`
abbrev pub back : List ℕ → ℕ
back xs = get_or xs (length xs - 1) 0

module _ {ℓ} {A : Type ℓ} where
  -- The counts of a nested container, from entry `i` on.
  abbrev pub nested_counts : ℕ → List (List A) → List ℕ → List ℕ
  nested_counts i [] send_counts = send_counts
  nested_counts i (message ∷ messages) send_counts =
      nested_counts (suc i) messages (set send_counts i (length message))

  abbrev pub sparse_counts : List (ℕ × List A) → List ℕ → List ℕ
  sparse_counts [] send_counts = send_counts
  sparse_counts ((destination, message) ∷ messages) send_counts =
      sparse_counts messages (set send_counts destination (length message))

  abbrev pub copy_nested : ℕ → List ℕ → List (List A) → List A → List A
  copy_nested i send_displs [] flat_send_buf = flat_send_buf
  copy_nested i send_displs (message ∷ messages) flat_send_buf =
      copy_nested (suc i) send_displs messages
        (write_at (get_or send_displs i 0) message flat_send_buf)

  abbrev pub copy_sparse : List ℕ → List (ℕ × List A) → List A → List A
  copy_sparse send_displs [] flat_send_buf = flat_send_buf
  copy_sparse send_displs ((destination, message) ∷ messages) flat_send_buf =
      copy_sparse send_displs messages
        (write_at (get_or send_displs destination 0) message flat_send_buf)

  pub flatten_nested : A → ℕ → List (List A) → Flattened A
  flatten_nested blank comm_size messages =
      let send_counts = nested_counts 0 messages (replicate comm_size 0) in
      let send_displs = exclusive_scan 0 send_counts in
      record {
        send_buf =
            copy_nested 0 send_displs messages
              (replicate (back send_displs + back send_counts) blank);
        send_counts = send_counts;
        send_displs = send_displs;
      }

  pub flatten_sparse : A → ℕ → List (ℕ × List A) → Flattened A
  flatten_sparse blank comm_size messages =
      let send_counts = sparse_counts messages (replicate comm_size 0) in
      let send_displs = exclusive_scan 0 send_counts in
      record {
        send_buf =
            copy_sparse send_displs messages
              (replicate (back send_displs + back send_counts) blank);
        send_counts = send_counts;
        send_displs = send_displs;
      }
