-- ===== src/Grid/Relays.antt =====
-- Which rank of a column has got the elements of a source.
use native.Mathlib.Nat.{div-add-mod'}
use mping.Prelude.{
  ℕ, zero, suc, ◌+◌, ◌*◌, ◌/◌, ◌%◌, ◌<◌, ◌≤◌, ◌≡◌, ◌⊎◌, inl, inr, ap₂, sym, ◌∙◌, length, Bool-cases,
  ltb, arith,
}
use mping.Grid.{num_columns, num_full_rows, size_complete_rectangle, row_color, col_color}
use mping.Grid.Members.{members, count_color, length-members}
use mping.Grid.Shape.{shape}
use mping.Grid.Places.{count-lt}
use mping.Grid.Routing.{row_color-lt, relay_of, row_count, col_count, count-row}

count_mono : (color : ℕ → ℕ) (k m n : ℕ) → m ≤ n → count_color color k m ≤ count_color color k n
count_mono color k m zero l = let e : m ≡ 0 = omega arith in rw e (omega arith)
count_mono color k m (suc n) l = elim (Bool-cases (ltb n m)) [
  | inl y ↦ let e : m ≡ suc n = ground arith in rw e (omega arith)
  | inr before ↦ omega (arith, count_mono color k m n (ground arith))
]

module _ (size : ℕ) (h : 0 < size) where
  -- A rank's index in its row and in its column
  abbrev pub row_place : ℕ → ℕ
  row_place m = count_color (row_color size) (row_color size m) m

  abbrev pub col_place : ℕ → ℕ
  col_place m = count_color (col_color size) (col_color size m) m

  full_row :
      (k : ℕ)
      → k < num_full_rows size
      → count_color (row_color size) k (size_complete_rectangle size) ≡ num_columns size
  unfolding row_color size_complete_rectangle
  full_row k l =
      count-row (num_columns size) (size_complete_rectangle size) k (size_complete_rectangle size)
        (num_full_rows size) 0 (omega arith) (grind arith) (shape size h).0
      ∙ ground arith

  row-full : (m : ℕ) → m < size_complete_rectangle size → row_color size m ≡ m / num_columns size
  unfolding row_color
  row-full m l = ground arith

  itself : (m : ℕ) → relay_of size h (m / num_columns size) m ≡ m
  unfolding relay_of
  itself m = omega (arith, div-add-mod' m (num_columns size))

  pub row_place-full :
      (m : ℕ) → m < size_complete_rectangle size → row_place m ≡ m % num_columns size
  row_place-full m l =
      let in_full : row_color size m < num_full_rows size =
        row_color-lt size h m (omega (arith, shape size h)) in
      ap₂ (count_color (row_color size)) (row-full m l) (sym (itself m))
      ∙ row_count size h (m / num_columns size) m (omega (arith, in_full, row-full m l))

  pub row_place-incomplete :
      (m : ℕ) → m < size → size_complete_rectangle size ≤ m → num_columns size ≤ row_place m
  row_place-incomplete m l inc = omega (
    arith,
    full_row (row_color size m) (row_color-lt size h m l),
    count_mono (row_color size) (row_color size m) (size_complete_rectangle size) m inc,
  )

  pub row-size :
      (m : ℕ)
      → m < size
      → num_columns size ≤ length (members (row_color size) (row_color size m) size)
  row-size m l = omega (
    arith,
    length-members (row_color size) (row_color size m) size,
    full_row (row_color size m) (row_color-lt size h m l),
    count_mono (row_color size) (row_color size m) (size_complete_rectangle size) size
        (omega (arith, shape size h)),
  )

  -- In a column, only the relay of a row has a place in that row that is a column.
  pub relay-only :
      (m s d : ℕ)
      → m < size
      → col_color size m ≡ col_color size d
      → row_color size m ≡ row_color size s
      → (m ≡ relay_of size h (row_color size s) d) ⊎ (num_columns size ≤ row_place m)
  unfolding col_color relay_of
  relay-only m s d l same_col same_row = elim (Bool-cases (ltb m (size_complete_rectangle size))) [
    | inl y ↦
        let same : m / num_columns size ≡ row_color size s =
          sym (row-full m (ground arith)) ∙ same_row in
        inl (sym (itself m) ∙ ap₂ (λ k c. k * num_columns size + c) same same_col)
    | inr n ↦ inr (row_place-incomplete m l (ground arith))
  ]

  -- The place of a destination in its column is in the column communicator.
  pub col_place-lt :
      (d : ℕ)
      → d < size
      → d / num_columns size < length (members (col_color size) (col_color size d) size)
  col_place-lt d l = omega (
    arith,
    length-members (col_color size) (col_color size d) size,
    count-lt (col_color size) d size l,
    col_count size h d,
  )
