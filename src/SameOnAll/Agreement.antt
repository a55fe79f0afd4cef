-- ===== src/SameOnAll/Agreement.antt =====
-- The result of `is_same_on_all_ranks` does not depend on the order of the reduction.
use mping.Prelude.{
  ℕ, ◌<◌, ◌≡◌, ◌↔◌, inl, inr, refl, ap, sym, ◌∙◌, Bool, true, ◌&&◌, Bool-cases, arith,
}
use mping.Collectives.{all_below}
use mping.Collectives.Buffers.{all_below-true, all_below-each}
use mping.SameOnAll.{
  ValueEqual, Order, rank, both, Occurs, reduced, MpiAllreduce, Reduces, combine,
  is_same_on_all_ranks,
}

module _ {ℓ} {A : Type ℓ} (eq : A → A → Bool) (decides : (a b : A) → (eq a b ≡ true) ↔ (a ≡ b))
    (values : ℕ → A) where
  abbrev start : ℕ → ValueEqual A
  start r = record { value = values r; equal = true }

  abbrev result : Order → ValueEqual A
  result t = reduced (combine eq) start t

  combine-equal :
      (a b : ValueEqual A)
      → (combine eq a b).equal ≡ true
      → (a.equal ≡ true) × (b.equal ≡ true) × (eq a.value b.value ≡ true)
  unfolding combine
  combine-equal a b h = elim (Bool-cases (a.equal && (b.equal && eq a.value b.value))) [
    | inl y ↦ (ground (arith, y), ground (arith, y), ground (arith, y))
    | inr n ↦ absurd (ground (arith, h, n))
  ]

  combined-equal :
      (a b : ValueEqual A)
      → a.equal ≡ true
      → b.equal ≡ true
      → eq a.value b.value ≡ true
      → (combine eq a b).equal ≡ true
  unfolding combine
  combined-equal a b ea eb e = rw (ea, eb, e) refl

  combine-value : (a b : ValueEqual A) → (combine eq a b).value ≡ a.value
  unfolding combine
  combine-value a b = elim (Bool-cases (a.equal && (b.equal && eq a.value b.value))) [
    | inl y ↦ rw y refl
    | inr n ↦ rw n refl
  ]

  -- If the reduction finds no difference, all ranks have the value it ends with.
  equal-agree :
      (t : Order) → (result t).equal ≡ true → (r : ℕ) → Occurs r t → values r ≡ (result t).value
  equal-agree (rank j) h r e = ap values e
  equal-agree (both a b) h r (inl o) =
      let (ha, hb, e) = combine-equal (result a) (result b) h in
      equal-agree a ha r o ∙ sym (combine-value (result a) (result b))
  equal-agree (both a b) h r (inr o) =
      let (ha, hb, e) = combine-equal (result a) (result b) h in
      equal-agree b hb r o
      ∙ sym ((decides (result a).value (result b).value).0 e)
      ∙ sym (combine-value (result a) (result b))

  agree-equal :
      (t : Order) (a : A)
      → ((r : ℕ) → Occurs r t → values r ≡ a)
      → ((result t).equal ≡ true) × ((result t).value ≡ a)
  agree-equal (rank j) a h = (refl, h j refl)
  agree-equal (both s t) a h =
      let (es, vs) = agree-equal s a (λ r o. h r (inl o)) in
      let (et, vt) = agree-equal t a (λ r o. h r (inr o)) in
      let same : eq (result s).value (result t).value ≡ true =
        (decides (result s).value (result t).value).1 (vs ∙ sym vt) in
      (combined-equal (result s) (result t) es et same, combine-value (result s) (result t) ∙ vs)

  -- In a communicator that is not empty, `is_same_on_all_ranks` gives whether every rank has the
  -- value of rank 0, in whatever order and with whatever brackets MPI reduces, if the comparison
  -- decides equality.
  pub is_same_on_all_ranks-agreement :
      (p : ℕ) (mpi : MpiAllreduce (ValueEqual A))
      → 0 < p
      → Reduces p mpi
      → is_same_on_all_ranks eq mpi values ≡ all_below p (λ r. eq (values r) (values 0))
  unfolding is_same_on_all_ranks
  is_same_on_all_ranks-agreement p mpi positive law =
      let (t, covers, e) = law (combine eq) start in
      ap (λ v. v.equal) e ∙ (elim (Bool-cases (result t).equal) [
        | inl y ↦
            let agree : (r : ℕ) → r < p → values r ≡ (result t).value =
              λ r l. equal-agree t y r (covers.all r l) in
            y
            ∙ sym (
                all_below-true p (λ r. eq (values r) (values 0))
                  (λ r l. (decides (values r) (values 0)).1 (agree r l ∙ sym (agree 0 positive))))
        | inr n ↦ elim (Bool-cases (all_below p (λ r. eq (values r) (values 0)))) [
          | inl all ↦
              let found : (result t).equal ≡ true =
                (agree-equal t (values 0) (λ r o.
                  (decides (values r) (values 0)).0 (
                    all_below-each p (λ r. eq (values r) (values 0)) all r (covers.only r o)))).0 in
              absurd (ground (arith, found, n))
          | inr none ↦ n ∙ sym none
        ]
      ])
