-- ===== src/Flatten/Sparse.antt =====
-- A flattened buffer of pairs of destinations and messages gives every message back.
use mping.Prelude.{
  ℕ, zero, suc, ◌≡◌, refl, List, [], ◌∷◌, get_or, replicate, sum, exclusive_scan, arith,
}
use mping.Blocks.{slice, concat, lengths}
use mping.Flatten.{Flattened}
use mping.Flatten.Sent.{set_all}

sum-replicate : (n : ℕ) → sum (replicate n 0) ≡ 0
sum-replicate zero = refl
sum-replicate (suc n) = omega (arith, sum-replicate n)

module _ {ℓ} {A : Type ℓ} where
  -- The block of each destination is its message.
  abbrev pub Delivered : Flattened A → List (ℕ × List A) → Type ℓ
  Delivered flat [] = Unit
  Delivered flat ((d, m) ∷ messages) =
      (slice flat.send_buf (get_or flat.send_displs d 0) (get_or flat.send_counts d 0) ≡ m)
      × Delivered flat messages

  abbrev blank_blocks : A → List ℕ → List (List A)
  blank_blocks blank [] = []
  blank_blocks blank (c ∷ counts) = replicate c blank ∷ blank_blocks blank counts

  flat_of : List (List A) → List ℕ → Flattened A
  flat_of blocks counts = record {
    send_buf = concat blocks;
    send_counts = counts;
    send_displs = exclusive_scan 0 counts;
  }

  abbrev counted : ℕ → List (ℕ × List A) → List ℕ
  counted n messages = lengths (set_all messages (replicate n []))

  -- The blocks behind a flattened sparse buffer: blank ones of the counted sizes, then the messages.
  abbrev sparse_blocks : A → ℕ → List (ℕ × List A) → List (List A)
  sparse_blocks blank n messages = set_all messages (blank_blocks blank (counted n messages))
