-- ===== src/Grid/Alltoallv/Elements.antt =====
-- The elements that come to a rank by its row and then by its column.
use native.Mathlib.Nat.{mod-lt}
use mping.Prelude.{
  subst, ℕ, ◌+◌, ◌/◌, ◌%◌, ◌<◌, ◌≡◌, ◌≢◌, inl, inr, ap, sym, ◌∙◌, List, [], length, get_or,
  exclusive_scan, arith, Bool-cases, ltb,
}
use mping.Blocks.{slice, concat, tabulate_from}
use mping.Buckets.{bucket, Keys}
use mping.Buckets.Filter.{
  Each, Each-mono, Each-concat, concat-lone, concat-none, Keys-Each, bucket-concat, bucket-all,
  bucket-none, bucket-Each, bucket-commute,
}
use mping.Grid.{
  num_columns, size_complete_rectangle, row_color, col_color, get_destination_in_rowwise_exchange,
  get_destination_in_colwise_exchange,
}
use mping.Grid.Members.{members, count_color, length-members}
use mping.Grid.Shape.{shape}
use mping.Grid.Places.{index_of, members-at, count-lt, get_or-members, index_of-members}
use mping.Grid.Relays.{row_place, row_place-full, row_place-incomplete, col_place-lt}
use mping.Grid.Exchange.{Envelope, sent}
use mping.Grid.Exchange.Sent.{in_row, in_column}
use mping.Grid.Exchange.Elements.{IsSent, sent-Each}

module _ {ℓ} {A : Type ℓ} (size : ℕ) (h : 0 < size) (sb : ℕ → List A) (sc : ℕ → List ℕ)
    (each : (r : ℕ) → r < size → length (sc r) ≡ size) where
  abbrev pub displs : ℕ → List ℕ
  displs r = exclusive_scan 0 (sc r)

  abbrev pub elements : ℕ → List (Envelope A)
  elements s = sent s 0 (sb s) (sc s) (displs s)

  -- The message of a source for a destination
  abbrev pub message : ℕ → ℕ → List A
  message s d = slice (sb s) (get_or (displs s) d 0) (get_or (sc s) d 0)

  abbrev pub row_group : ℕ → List ℕ
  row_group m = members (row_color size) (row_color size m) size

  abbrev pub col_group : ℕ → List ℕ
  col_group m = members (col_color size) (col_color size m) size

  abbrev pub row_received : ℕ → List (Envelope A)
  row_received m = concat (
      tabulate_from 0 (length (row_group m)) (λ j.
        bucket (in_row size) (index_of (row_group m) m) (elements (get_or (row_group m) j 0))))

  abbrev pub col_received : ℕ → List (Envelope A)
  col_received d = concat (
      tabulate_from 0 (length (col_group d)) (λ j.
        bucket (in_column size) (index_of (col_group d) d)
          (row_received (get_or (col_group d) j 0))))

  pub elements-Each : (s : ℕ) → s < size → Each (IsSent s (sb s) 0 size) (elements s)
  elements-Each s l = sent-Each s (sb s) 0 size (sc s) (displs s) (omega (arith, each s l))

  elements-own : (s : ℕ) → s < size → bucket (λ e. e.source) s (elements s) ≡ elements s
  elements-own s l =
      bucket-all (λ e. e.source) s (elements s)
        (Each-mono (IsSent s (sb s) 0 size) (λ e. e.source ≡ s) (λ e t. t.0) (elements s)
          (elements-Each s l))

  elements-foreign : (s x : ℕ) → x < size → x ≢ s → bucket (λ e. e.source) s (elements x) ≡ []
  elements-foreign s x l other =
      bucket-none (λ e. e.source) s (elements x)
        (Each-mono (IsSent x (sb x) 0 size) (λ e. e.source ≢ s) (λ e t. omega (arith, t))
          (elements x) (elements-Each x l))

  -- A member with the place of `m` is `m`.
  pub place_unique :
      (color : ℕ → ℕ) (k m j : ℕ)
      → j < length (members color k size)
      → get_or (members color k size) j 0 ≡ m
      → j ≡ count_color color k m
  place_unique color k m j l e = sym (members-at color k size j l).2 ∙ ap (count_color color k) e

  pub place_lt :
      (color : ℕ → ℕ) (k m : ℕ)
      → color m ≡ k
      → m < size
      → count_color color k m < length (members color k size)
  place_lt color k m e l =
      subst (λ c. count_color color c m < length (members color c size)) e
        (omega (arith, length-members color (color m) size, count-lt color m size l))

  pub get_or-place :
      (color : ℕ → ℕ) (k m : ℕ)
      → color m ≡ k
      → m < size
      → get_or (members color k size) (count_color color k m) 0 ≡ m
  get_or-place color k m e l =
      subst (λ c. get_or (members color c size) (count_color color c m) 0 ≡ m) e
        (get_or-members color m size l)

  -- The elements of a source are in its row, and nowhere else.
  pub row_received-source :
      (m s : ℕ)
      → s < size
      → row_color size s ≡ row_color size m
      → bucket (λ e. e.source) s (row_received m)
        ≡ bucket (in_row size) (index_of (row_group m) m) (elements s)
  row_received-source m s k same =
      let i = index_of (row_group m) m in
      let p = count_color (row_color size) (row_color size m) s in
      let own = λ (j : ℕ). bucket (in_row size) i (elements (get_or (row_group m) j 0)) in
      let zeroth : 0 + p ≡ p = omega arith in
      bucket-concat (λ e. e.source) s 0 (length (row_group m)) own
      ∙ concat-lone 0 (length (row_group m)) (λ j. bucket (λ e. e.source) s (own j)) p
          (place_lt (row_color size) (row_color size m) s same k)
          (λ j l ne.
            let here : j < length (row_group m) = omega arith in
            let inside = (members-at (row_color size) (row_color size m) size j here).0 in
            bucket-commute (λ e. e.source) (in_row size) s i (elements (get_or (row_group m) j 0))
            ∙ ap (bucket (in_row size) i) (
                elements-foreign s (get_or (row_group m) j 0) inside (λ e.
                  absurd
                    (omega (arith, place_unique (row_color size) (row_color size m) s j here e)))))
      ∙ ap (λ j. bucket (λ e. e.source) s (own j)) zeroth
      ∙ ap (λ x. bucket (λ e. e.source) s (bucket (in_row size) i (elements x)))
          (get_or-place (row_color size) (row_color size m) s same k)
      ∙ bucket-commute (λ e. e.source) (in_row size) s i (elements s)
      ∙ ap (bucket (in_row size) i) (elements-own s k)

  pub row_received-foreign :
      (m s : ℕ)
      → row_color size m ≢ row_color size s
      → bucket (λ e. e.source) s (row_received m) ≡ []
  row_received-foreign m s other =
      let i = index_of (row_group m) m in
      let own = λ (j : ℕ). bucket (in_row size) i (elements (get_or (row_group m) j 0)) in
      bucket-concat (λ e. e.source) s 0 (length (row_group m)) own
      ∙ concat-none 0 (length (row_group m)) (λ j. bucket (λ e. e.source) s (own j))
          (λ j z l.
            let (inside, color, place) =
              members-at (row_color size) (row_color size m) size j (omega arith) in
            bucket-commute (λ e. e.source) (in_row size) s i (elements (get_or (row_group m) j 0))
            ∙ ap (bucket (in_row size) i) (
                elements-foreign s (get_or (row_group m) j 0) inside
                  (λ e. other (sym color ∙ ap (row_color size) e))))

  -- An element for which the rank is the relay
  abbrev IsRelayed : ℕ → Envelope A → Type 0
  IsRelayed m e =
      ((e.source < size) × (e.destination < size)) × (in_row size e ≡ index_of (row_group m) m)

  row_received-Each : (m : ℕ) → Each (IsRelayed m) (row_received m)
  row_received-Each m =
      Each-concat (IsRelayed m) 0 (length (row_group m))
        (λ j. bucket (in_row size) (index_of (row_group m) m) (elements (get_or (row_group m) j 0)))
        (λ j l.
          let x = get_or (row_group m) j 0 in
          let inside = (members-at (row_color size) (row_color size m) size j (omega arith)).0 in
          bucket-Each (in_row size) (index_of (row_group m) m)
            (λ e. (e.source < size) × (e.destination < size)) (elements x)
            (Each-mono (IsSent x (sb x) 0 size) (λ e. (e.source < size) × (e.destination < size))
              (λ e t. (omega (arith, t, inside), t.2)) (elements x) (elements-Each x inside)))

  pub row_index : (m : ℕ) → m < size → index_of (row_group m) m ≡ row_place size h m
  row_index m l = index_of-members (row_color size) m size l

  -- What has come by the row stays in the column of its destination.
  relayed_column :
      (m : ℕ)
      → m < size
      → (e : Envelope A) → IsRelayed m e
      → in_column size e < length (col_group m)
  unfolding get_destination_in_rowwise_exchange get_destination_in_colwise_exchange col_color
  relayed_column m l e t =
      let at_place : e.destination % num_columns size ≡ row_place size h m = t.1 ∙ row_index m l in
      let is_full : m < size_complete_rectangle size =
        (elim (Bool-cases (ltb m (size_complete_rectangle size))) [
          | inl y ↦ ground arith
          | inr n ↦ absurd (
              omega (
                arith,
                at_place,
                row_place-incomplete size h m l (ground arith),
                mod-lt e.destination (shape size h).0,
              ))
        ]) in
      let same : e.destination % num_columns size ≡ m % num_columns size =
        at_place ∙ row_place-full size h m is_full in
      subst (λ c. e.destination / num_columns size < length (members (col_color size) c size)) same
        (col_place-lt size h e.destination t.0.1)

  pub row_received-Keys :
      (m : ℕ) → m < size → Keys (in_column size) (length (col_group m)) (row_received m)
  row_received-Keys m l = Keys-Each (in_column size) (length (col_group m)) (row_received m) (
      Each-mono (IsRelayed m) (λ e. in_column size e < length (col_group m)) (relayed_column m l)
        (row_received m) (row_received-Each m))

  pub col_received-Keys : (d : ℕ) → Keys (λ e. e.source) size (col_received d)
  col_received-Keys d =
      Keys-Each (λ e. e.source) size (col_received d)
        (Each-concat (λ e. e.source < size) 0 (length (col_group d))
          (λ j.
            bucket (in_column size) (index_of (col_group d) d)
              (row_received (get_or (col_group d) j 0)))
          (λ j l.
            let x = get_or (col_group d) j 0 in
            let q = index_of (col_group d) d in
            Each-mono (λ e. IsRelayed x e × (in_column size e ≡ q)) (λ e. e.source < size)
              (λ e t. t.0.0.0) (bucket (in_column size) q (row_received x))
              (bucket-Each (in_column size) q (IsRelayed x) (row_received x)
                (row_received-Each x))))
