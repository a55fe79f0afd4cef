-- ===== src/RankRanges/Contains.antt =====
-- `contains` by what MPI means with a rank range.
use native.Mathlib.Nat.{div-add-mod'}
use mping.Prelude.{
  ℕ, suc, ◌+◌, ◌-◌, ◌*◌, ◌/◌, ◌%◌, ◌≤◌, ◌<◌, ◌≡◌, ◌⊎◌, ◌↔◌, inl, inr, refl, ap, sym, ◌∙◌, Bool,
  true, false, ◌&&◌, ◌==◌, Bool-cases, leb, List, [], ◌∷◌, some, mod-of, arith,
}
use mping.Prelude.Int.{pos, ◌+ℤ◌, sub_ℕ, rem}
use mping.Comm.{add_int}
use mping.Comm.Ranks.{add_int-some}
use mping.RankRanges.{RankRange, negate, rem_signed, in_rank_range, contains}

-- A range of ranks with a positive stride.
pub record Ascending : Type 0 where
  pub first : ℕ
  pub last : ℕ
  pub step : ℕ
  pub first_in : first < 2147483648

abbrev pub range_of : Ascending → RankRange
range_of a = record { first = pos a.first; last = pos a.last; stride = pos (suc a.step) }

abbrev pub ranges_of : List Ascending → List RankRange
ranges_of [] = []
ranges_of (a ∷ rest) = range_of a ∷ ranges_of rest

-- The ranks `first`, `first + stride`, .. up to `last`.
abbrev pub Member : ℕ → Ascending → Type 0
Member r a = (k : ℕ) × (r ≡ a.first + k * suc a.step) × (r ≤ a.last)

abbrev pub AnyMember : ℕ → List Ascending → Type 0
AnyMember r [] = ⊥
AnyMember r (a ∷ rest) = Member r a ⊎ AnyMember r rest

abbrev test : ℕ → Ascending → Bool
test r a = leb a.first r && leb r a.last && ((r - a.first) % suc a.step == 0)

difference : (r f : ℕ) → pos r +ℤ negate (pos f) ≡ sub_ℕ r f
unfolding ◌+ℤ◌
difference r f = ground arith

diff-some :
    (r f : ℕ)
    → r < 2147483648
    → f < 2147483648
    → add_int (pos r) (negate (pos f)) ≡ some (sub_ℕ r f)
unfolding ◌+ℤ◌
diff-some r f h k = add_int-some (pos r) (negate (pos f)) (ground arith) ∙ ap some (difference r f)

in_rank_range-test :
    (r : ℕ) (a : Ascending) → r < 2147483648 → in_rank_range (pos r) (range_of a) ≡ some (test r a)
unfolding in_rank_range rem_signed rem
in_rank_range-test r a h =
    rw (diff-some r a.first h a.first_in) (elim (Bool-cases (leb a.first r)) [
      | inl y ↦ rw y (ground arith)
      | inr n ↦ rw n (ground arith)
    ])

test-Member : (r : ℕ) (a : Ascending) → (test r a ≡ true) ↔ Member r a
test-Member r a = (to, from)
  where
    to : test r a ≡ true → Member r a
    to e =
        let whole = div-add-mod' (r - a.first) (suc a.step) in
        let no_rest : (r - a.first) % suc a.step ≡ 0 = ground arith in
        let behind : a.first ≤ r = ground arith in
        let quotient : r ≡ a.first + (r - a.first) / suc a.step * suc a.step =
          omega (arith, whole, no_rest, behind) in
        ((r - a.first) / suc a.step, quotient, ground arith)

    from : Member r a → test r a ≡ true
    from (k, e, l) =
        let m : (r - a.first) % suc a.step ≡ 0 =
          mod-of (r - a.first) (suc a.step) k 0 (omega arith) (omega arith) in
        ground arith

-- For ranges with positive strides whose first rank is an `int`, and a rank that is one, the test
-- never fails, and finds just the ranks of the ranges.
pub contains-members :
    (r : ℕ) (rest : List Ascending)
    → r < 2147483648
    → (b : Bool) × (contains (ranges_of rest) (pos r) ≡ some b) × ((b ≡ true) ↔ AnyMember r rest)
unfolding contains
contains-members r [] h = (false, refl, (λ e. absurd cc, λ e. absurd e))
contains-members r (a ∷ rest) h =
    let (b, e, m) = contains-members r rest h in
    let t = test-Member r a in
    elim (Bool-cases (test r a)) [
      | inl y ↦ (true, rw (in_rank_range-test r a h, y) refl, (λ q. inl (t.0 y), λ q. refl))
      | inr n ↦ (
        b,
        rw (in_rank_range-test r a h, n) e,
        (
          λ q. inr (m.0 q),
          λ q. elim q [ inl x ↦ absurd (false_true (sym n ∙ t.1 x)) | inr x ↦ m.1 x ],
        ),
      )
    ]
  where
    false_true : false ≡ true → ⊥
    false_true e = absurd cc
