-- ===== src/Grid/Alltoallv/Messages.antt =====
-- By the two exchanges each rank gets its message of every source.
use native.Mathlib.Nat.{mod-lt, div-add-mod'}
use mping.Prelude.{
  subst, ℕ, ◌+◌, ◌*◌, ◌/◌, ◌%◌, ◌<◌, ◌≡◌, ◌≢◌, inl, inr, refl, ap, sym, ◌∙◌, false, ◌&&◌, List, [],
  map, length, get_or, length-exclusive_scan, ◌==◌, ==_refl, ==_iff, arith, ℕ_discrete, Bool-cases,
}
use mping.Buckets.{bucket}
use mping.Buckets.Filter.{
  Each-mono, concat-lone, bucket-concat, bucket-none, bucket-both, bucket-commute,
}
use mping.Grid.{
  num_columns, row_color, col_color, get_destination_in_rowwise_exchange,
  get_destination_in_colwise_exchange,
}
use mping.Grid.Members.{count_color}
use mping.Grid.Shape.{shape}
use mping.Grid.Places.{index_of, members-at, index_of-members}
use mping.Grid.Routing.{
  row_color-lt, relay_of, relay-lt, relay_row, relay_col, row_count, col_count,
}
use mping.Grid.Relays.{row_place, relay-only}
use mping.Grid.Exchange.{Envelope}
use mping.Grid.Exchange.Sent.{in_row, in_column}
use mping.Grid.Exchange.Elements.{enveloped, IsSent, sent-message}
use mping.Grid.Alltoallv.Elements.{
  elements, displs, message, row_group, col_group, row_received, col_received, place_unique,
  place_lt, get_or-place, row_received-source, row_received-foreign, row_index, elements-Each,
}

-- A destination is known by its row and its column.
position_unique :
    (n q r x d : ℕ) → 0 < n → q ≡ d / n → r ≡ d % n → ((x / n == q) && (x % n == r)) ≡ (x == d)
position_unique n q r x d positive e f = elim (ℕ_discrete x d) [
  | yes same ↦ rw (e, f, same, ==_refl (d / n), ==_refl (d % n), ==_refl d) refl
  | no other ↦ let differs : (x == d) ≡ false = ground arith in differs_both differs other
]
  where
    differs_both : (x == d) ≡ false → x ≢ d → ((x / n == q) && (x % n == r)) ≡ (x == d)
    differs_both differs other = rw differs (elim (Bool-cases (x / n == q)) [
      | inl y ↦
          let same_row : x / n ≡ d / n = (==_iff (x / n) q).0 y ∙ e in
          let no_column : (x % n == r) ≡ false =
            ground
              (arith, f, other, div-add-mod' x n, div-add-mod' d n, ap (λ k. k * n) same_row) in
          rw (y, no_column) refl
      | inr m ↦ rw m refl
    ])

module _ {ℓ} {A : Type ℓ} (size : ℕ) (h : 0 < size) (sb : ℕ → List A) (sc : ℕ → List ℕ)
    (each : (r : ℕ) → r < size → length (sc r) ≡ size) (s d : ℕ) (s_in : s < size)
    (d_in : d < size) where
  abbrev relay : ℕ
  relay = relay_of size h (row_color size s) d

  abbrev source : Envelope A → ℕ
  source e = e.source

  -- The place of the destination in its column
  abbrev target : ℕ
  target = index_of (col_group size h sb sc each d) d

  target-row : target ≡ d / num_columns size
  target-row = index_of-members (col_color size) d size d_in ∙ col_count size h d

  relay_in : relay < size
  relay_in =
      omega (arith, relay-lt size h (row_color size s) d (row_color-lt size h s s_in), shape size h)

  relay_place : row_place size h relay ≡ d % num_columns size
  relay_place =
      ap (λ c. count_color (row_color size) c relay)
        (relay_row size h (row_color size s) d (row_color-lt size h s s_in))
      ∙ row_count size h (row_color size s) d (row_color-lt size h s s_in)

  abbrev arrived : ℕ → List (Envelope A)
  arrived x = bucket (in_column size) target (row_received size h sb sc each x)

  own_message :
      bucket (λ e. e.destination) d (elements size h sb sc each s)
      ≡ map (enveloped s d) (message size h sb sc each s d)
  own_message =
      let zeroth : 0 + d ≡ d = omega arith in
      subst
        (λ j.
          bucket (λ e. e.destination) j (elements size h sb sc each s)
          ≡ map (enveloped s j) (message size h sb sc each s d))
        zeroth
        (sent-message s (sb s) 0 d (sc s) (displs size h sb sc each s) (omega (arith, each s s_in))
          (length-exclusive_scan 0 (sc s)))

  from_relay : bucket source s (arrived relay) ≡ map (enveloped s d) (message size h sb sc each s d)
  unfolding get_destination_in_rowwise_exchange get_destination_in_colwise_exchange
  from_relay =
      bucket-commute source (in_column size) s target (row_received size h sb sc each relay)
      ∙ ap (bucket (in_column size) target) (
          row_received-source size h sb sc each relay s s_in
            (sym (relay_row size h (row_color size s) d (row_color-lt size h s s_in))))
      ∙ bucket-both (in_column size) (in_row size) (λ e. e.destination) target
          (index_of (row_group size h sb sc each relay) relay) d
          (λ e.
            position_unique (num_columns size) target
              (index_of (row_group size h sb sc each relay) relay) e.destination d (shape size h).0
              target-row (row_index size h sb sc each relay relay_in ∙ relay_place))
          (elements size h sb sc each s)
      ∙ own_message

  from_other :
      (x : ℕ)
      → x < size
      → col_color size x ≡ col_color size d
      → x ≢ relay
      → bucket source s (arrived x) ≡ []
  unfolding get_destination_in_rowwise_exchange
  from_other x l same other =
      bucket-commute source (in_column size) s target (row_received size h sb sc each x)
      ∙ ap (bucket (in_column size) target) nothing
    where
      nothing : bucket source s (row_received size h sb sc each x) ≡ []
      nothing = elim (ℕ_discrete (row_color size x) (row_color size s)) [
        | no differs ↦ row_received-foreign size h sb sc each x s differs
        | yes e ↦ elim (relay-only size h x s d l same e) [
          | inl is_relay ↦ absurd (other is_relay)
          | inr outside ↦
              row_received-source size h sb sc each x s s_in (sym e)
              ∙ bucket-none (in_row size) (index_of (row_group size h sb sc each x) x)
                  (elements size h sb sc each s)
                  (Each-mono (IsSent s (sb s) 0 size)
                    (λ e. in_row size e ≢ index_of (row_group size h sb sc each x) x)
                    (λ e t. omega (
                      arith,
                      row_index size h sb sc each x l,
                      outside,
                      mod-lt e.destination (shape size h).0,
                    ))
                    (elements size h sb sc each s) (elements-Each size h sb sc each s s_in))
        ]
      ]

  pub col_received-message :
      bucket source s (col_received size h sb sc each d)
      ≡ map (enveloped s d) (message size h sb sc each s d)
  col_received-message =
      let group = col_group size h sb sc each d in
      let p = count_color (col_color size) (col_color size d) relay in
      let zeroth : 0 + p ≡ p = omega arith in
      let same : col_color size relay ≡ col_color size d = relay_col size h (row_color size s) d in
      bucket-concat source s 0 (length group) (λ j. arrived (get_or group j 0))
      ∙ concat-lone 0 (length group) (λ j. bucket source s (arrived (get_or group j 0))) p
          (place_lt size h sb sc each (col_color size) (col_color size d) relay same relay_in)
          (λ j l ne.
            let here : j < length group = omega arith in
            let (inside, color, place) =
              members-at (col_color size) (col_color size d) size j here in
            from_other (get_or group j 0) inside color (λ e. absurd (
              omega (
                arith,
                place_unique size h sb sc each (col_color size) (col_color size d) relay j here e,
              ))))
      ∙ ap (λ j. bucket source s (arrived (get_or group j 0))) zeroth
      ∙ ap (λ x. bucket source s (arrived x))
          (get_or-place size h sb sc each (col_color size) (col_color size d) relay same relay_in)
      ∙ from_relay
