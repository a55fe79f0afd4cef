-- ===== src/Grid/Shape.antt =====
-- The grid has at most one incomplete row, and enough full rows to take its ranks in.
use mping.Prelude.{
  ℕ, zero, suc, ◌+◌, ◌-◌, ◌*◌, ◌≤◌, ◌<◌, ◌≡◌, inl, inr, arith, leb, if◌then◌else◌, div-of,
}
use mping.Grid.Sqrt.{floor_sqrt, floor_sqrt_bounds, ceil_sqrt_cases}
use mping.Grid.{num_columns, num_full_rows, size_complete_rectangle}

-- The number of columns and what it leaves over, by the root `f` rounded down.
abbrev Fitting : ℕ → ℕ → ℕ → Type 0
Fitting f n size = (0 < n) × (f * n ≤ size) × (size < f * n + n) × (size ≤ f * n + f)

num_columns-Fitting : (size : ℕ) → 0 < size → Fitting (floor_sqrt size) (num_columns size) size
unfolding num_columns
num_columns-Fitting size h = elim (ceil_sqrt_cases size) [
  | inl (c, s) ↦ rw c (square (floor_sqrt size) size h s)
  | inr (c, s) ↦ rw c (between (floor_sqrt size) size h s (floor_sqrt_bounds size).1)
]
  where
    square : (f n : ℕ) → 0 < n → f * f ≡ n → Fitting f (if leb (f * f) n then f else f) n
    square zero n p e = absurd (omega arith)
    square (suc f) n p e = ground arith

    between :
        (f n : ℕ)
        → 0 < n
        → f * f < n
        → n < suc f * suc f
        → Fitting f (if leb (f * suc f) n then suc f else f) n
    between zero n p l r = ground arith
    between (suc f) n p l r = ground arith

-- The grid of a communicator that is not empty has columns, and as many full rows as the square
-- root of its size rounded down; these rows fit into the communicator, and the ranks left over are
-- fewer than the columns and at most as many as the full rows.
pub shape :
    (size : ℕ)
    → 0 < size
    → (0 < num_columns size)
      × (num_full_rows size ≡ floor_sqrt size)
      × (size_complete_rectangle size ≤ size)
      × (size - size_complete_rectangle size < num_columns size)
      × (size - size_complete_rectangle size ≤ num_full_rows size)
unfolding num_full_rows size_complete_rectangle
shape size h =
    let (a, b, c, d) = num_columns-Fitting size h in
    let rows : num_full_rows size ≡ floor_sqrt size =
      div-of size (num_columns size) (floor_sqrt size) (size - floor_sqrt size * num_columns size)
        (omega arith) (omega arith) in
    (a, rows, rw rows (omega arith), rw rows (omega arith), rw rows (omega arith))
