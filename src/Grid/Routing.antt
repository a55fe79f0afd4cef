-- ===== src/Grid/Routing.antt =====
-- The two exchanges take every element to its destination.
use native.Mathlib.Nat.{div-add-mod', mod-lt, div-lt_iff_lt-mul}
use mping.Prelude.{
  ℕ, zero, suc, ◌+◌, ◌-◌, ◌*◌, ◌/◌, ◌%◌, ◌≤◌, ◌<◌, ◌≡◌, ◌∙◌, refl, ap, sym, arith, leb, ltb, ◌==◌,
  if◌then◌else◌, div-of, mod-of, some, get_elem?,
}
use mping.Grid.{
  num_columns, num_full_rows, size_complete_rectangle, row_color, col_color, Split, route,
  get_destination_in_rowwise_exchange, get_destination_in_colwise_exchange,
}
use mping.Grid.Members.{members, count_color, member_at}
use mping.Grid.Shape.{shape}

module _ (n : ℕ) where
  -- In the columns the ranks of color `c` are `c`, `c + n`, `c + 2 n` and so on.
  count-column :
      (c x q r : ℕ)
      → c < n
      → x ≡ q * n + r
      → r < n
      → count_color (λ d. d % n) c x ≡ q + (if ltb c r then 1 else 0)
  count-column c zero zero r h e k = ground arith
  count-column c zero (suc q) r h e k = absurd (omega arith)
  count-column c (suc x) zero zero h e k = absurd (omega arith)
  count-column c (suc x) (suc q) zero h e k = ground (
    arith,
    mod-of x n q (n - 1) (omega arith) (omega arith),
    count-column c x q (n - 1) h (omega arith) (omega arith),
  )
  count-column c (suc x) q (suc r) h e k = ground (
    arith,
    mod-of x n q r (omega arith) (omega arith),
    count-column c x q r h (omega arith) (omega arith),
  )

  abbrev row_of : ℕ → ℕ → ℕ
  row_of rect d = if leb rect d then d % n else d / n

  -- In the full rows the ranks of color `k` are `k n`, `k n + 1` and so on.
  pub count-row :
      (rect k x q r : ℕ)
      → x ≤ rect
      → x ≡ q * n + r
      → r < n
      → count_color (row_of rect) k x ≡ (if ltb q k then 0 else if q == k then r else n)
  count-row rect k zero zero r h e l = ground arith
  count-row rect k zero (suc q) r h e l = absurd (omega arith)
  count-row rect k (suc x) zero zero h e l = absurd (omega arith)
  count-row rect k (suc x) (suc q) zero h e l = ground (
    arith,
    div-of x n q (n - 1) (omega arith) (omega arith),
    count-row rect k x q (n - 1) (omega arith) (omega arith) (omega arith),
  )
  count-row rect k (suc x) q (suc r) h e l = ground (
    arith,
    div-of x n q r (omega arith) (omega arith),
    count-row rect k x q r (omega arith) (omega arith) (omega arith),
  )

div-lt-of : (x n q : ℕ) → x < n * q → x / n < q
div-lt-of x n q h = ground (arith, div-lt_iff_lt-mul {k = n} {x = x} {y = q})

module _ (size : ℕ) (h : 0 < size) where
  -- A rank's row exists, also that of a rank of the incomplete row.
  pub row_color-lt : (s : ℕ) → s < size → row_color size s < num_full_rows size
  unfolding row_color size_complete_rectangle
  row_color-lt s k = ground (
    arith,
    shape size h,
    mod-of s (num_columns size) (num_full_rows size) (s - size_complete_rectangle size),
    div-lt-of s (num_columns size) (num_full_rows size),
  )

  -- Where the row exchange takes an element for `d`: into the column of `d`.
  unfoldable pub relay_of : ℕ → ℕ → ℕ
  relay_of k d = k * num_columns size + d % num_columns size

  pub relay-lt : (k d : ℕ) → k < num_full_rows size → relay_of k d < size_complete_rectangle size
  unfolding relay_of size_complete_rectangle
  relay-lt k d l = grind (arith, shape size h, mod-lt d {m = num_columns size})

  pub relay_row : (k d : ℕ) → k < num_full_rows size → row_color size (relay_of k d) ≡ k
  unfolding row_color relay_of
  relay_row k d l = ground (
    arith,
    relay-lt k d l,
    shape size h,
    mod-lt d {m = num_columns size},
    div-of (relay_of k d) (num_columns size) k (d % num_columns size),
  )

  pub relay_col : (k d : ℕ) → col_color size (relay_of k d) ≡ col_color size d
  unfolding col_color relay_of
  relay_col k d =
      mod-of (relay_of k d) (num_columns size) k (d % num_columns size) refl
        (mod-lt d (shape size h).0)

  pub row_count :
      (k d : ℕ)
      → k < num_full_rows size
      → count_color (row_color size) k (relay_of k d) ≡ d % num_columns size
  unfolding row_color relay_of
  row_count k d l =
      count-row (num_columns size) (size_complete_rectangle size) k (relay_of k d) k
        (d % num_columns size) (omega (arith, relay-lt k d l)) refl (mod-lt d (shape size h).0)
      ∙ ground arith

  pub col_count : (d : ℕ) → count_color (col_color size) (col_color size d) d ≡ d / num_columns size
  unfolding col_color
  col_count d =
      count-column (num_columns size) (d % num_columns size) d (d / num_columns size)
        (d % num_columns size) (mod-lt d (shape size h).0)
        (omega (arith, div-add-mod' d (num_columns size))) (mod-lt d (shape size h).0)
      ∙ ground arith

-- MPI documents that a split whose keys are the ranks puts the ranks of one color into one
-- communicator, in rank order.
abbrev pub SplitByRank : Split → Type 0
SplitByRank split =
    (color : ℕ → ℕ) (size rank : ℕ)
    → rank < size
    → split color size rank ≡ members color (color rank) size

-- For any source and destination in a communicator of any size, the row exchange has a receiver,
-- and the column exchange there ends at the destination, if `MPI_Comm_split` groups the ranks by
-- color and orders them by their rank.
pub route-destination :
    (split : Split) (size source destination : ℕ)
    → SplitByRank split
    → source < size
    → destination < size
    → route split size source destination ≡ some destination
unfolding route get_destination_in_rowwise_exchange get_destination_in_colwise_exchange
route-destination split size s d law hs hd =
    rw (law (row_color size) size s hs, first, route) (rw (law (col_color size) size m m_in) second)
  where
    h : 0 < size
    h = omega arith

    m : ℕ
    m = relay_of size h (row_color size s) d

    k_in : row_color size s < num_full_rows size
    k_in = row_color-lt size h s hs

    m_in : m < size
    m_in = omega (arith, relay-lt size h (row_color size s) d k_in, shape size h)

    first :
        get_elem? (members (row_color size) (row_color size s) size) (d % num_columns size) ≡ some m
    first =
        member_at (row_color size) _ size m _ (relay_row size h _ d k_in)
          (row_count size h _ d k_in) m_in

    second :
        get_elem? (members (col_color size) (col_color size m) size) (d / num_columns size) ≡ some d
    second =
        member_at (col_color size) _ size d _ (sym (relay_col size h (row_color size s) d))
          (ap (λ c. count_color (col_color size) c d) (relay_col size h (row_color size s) d)
            ∙ col_count size h d)
          hd
