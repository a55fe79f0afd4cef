-- ===== src/Blocks.antt =====
-- Buffers made of blocks, as the vectorized operations read and write them: block `i` of a buffer has
-- `counts[i]` elements from index `displs[i]` on. Also `std::vector::resize`.
pub mod Scan
use mping.Prelude.{ℕ, zero, suc, ◌+◌, ◌-◌, List, [], ◌∷◌, ◌++◌, take, drop, length, replicate}

module _ {ℓ} {A : Type ℓ} where
  -- `count` elements from index `offset` on.
  abbrev pub slice : List A → ℕ → ℕ → List A
  slice buffer offset count = take count (drop offset buffer)

  -- `std::copy_n(block, block.size(), buffer + offset)`, inside the buffer.
  abbrev pub write_at : ℕ → List A → List A → List A
  write_at offset block buffer =
      take offset buffer ++ (block ++ drop (offset + length block) buffer)

  -- The blocks, each written at its displacement.
  abbrev pub write_all : List ℕ → List (List A) → List A → List A
  write_all [] blocks buffer = buffer
  write_all (d ∷ displs) [] buffer = buffer
  write_all (d ∷ displs) (b ∷ blocks) buffer = write_all displs blocks (write_at d b buffer)

  abbrev pub concat : List (List A) → List A
  concat [] = []
  concat (b ∷ blocks) = b ++ concat blocks

  abbrev pub lengths : List (List A) → List ℕ
  lengths [] = []
  lengths (b ∷ blocks) = length b ∷ lengths blocks

  -- `buffer.resize(size)`: new elements have the value `blank`.
  abbrev pub resize : A → ℕ → List A → List A
  resize blank size buffer = take size buffer ++ replicate (size - length buffer) blank

  -- `f(0)` to `f(n - 1)`, from index `k` on.
  abbrev pub tabulate_from : ℕ → ℕ → (ℕ → A) → List A
  tabulate_from k zero f = []
  tabulate_from k (suc n) f = f k ∷ tabulate_from (suc k) n f
