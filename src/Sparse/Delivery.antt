-- ===== src/Sparse/Delivery.antt =====
-- A rank leaves the loop of the sparse exchange only when every message has been received.
use mping.Prelude.{
  ℕ, ◌<◌, ◌≡◌, refl, ap, ==_refl, Bool, true, List, [], ◌∷◌, total, total-zero, count_if, arith,
}
use mping.Sparse.{
  Messages, SentMessage, Pc, sending, probing, testing, leaving, returned, System, entered, exited,
  sent_by, init, Reach,
}
use mping.Sparse.Invariant.{count_messages, unsent, AllBelow, Inv, Reach-Inv, init-Inv}

module _ {ℓ} {A : Type ℓ} where
  unsent-entered :
      (test : SentMessage A → Bool) (i : ℕ) (c : Pc A) → entered c ≡ true → unsent test i c ≡ 0
  unsent-entered test i (sending messages) h = cc
  unsent-entered test i (probing b) h = refl
  unsent-entered test i (testing b) h = refl
  unsent-entered test i leaving h = refl
  unsent-entered test i returned h = refl

  -- A message in flight keeps its sender from the barrier.
  nothing_in_flight :
      (n : ℕ) (es : List (SentMessage A))
      → AllBelow n es
      → ((j : ℕ) → j < n → count_if (sent_by j) es ≡ 0)
      → es ≡ []
  nothing_in_flight n [] b h = refl
  nothing_in_flight n (e ∷ es) b h =
      let none_sent = h e.source b.0 in
      let sent : sent_by e.source e ≡ true = ==_refl e.source in
      absurd (omega (arith, rw sent at none_sent))

  pub Inv-entered :
      {n : ℕ} {whole : (SentMessage A → Bool) → ℕ} {s : System A}
      → Inv n whole s
      → ((j : ℕ) → j < n → entered (s.pc j) ≡ true)
      → (s.in_flight ≡ []) × ((test : SentMessage A → Bool) → count_if test s.received ≡ whole test)
  Inv-entered {n} {s} inv all =
      let none_left = nothing_in_flight n s.in_flight inv.below (λ j k. inv.quiet j (all j k)) in
      (
        none_left,
        λ test. omega (
          arith,
          inv.kept test,
          ap (count_if test) none_left,
          total-zero n (unsent test) s.pc (λ j k. unsent-entered test j (s.pc j) (all j k)),
        ),
      )

  pub Inv-delivered :
      {n : ℕ} {whole : (SentMessage A → Bool) → ℕ} {s : System A}
      → Inv n whole s
      → (i : ℕ) → i < n
      → exited (s.pc i) ≡ true
      → (s.in_flight ≡ []) × ((test : SentMessage A → Bool) → count_if test s.received ≡ whole test)
  Inv-delivered inv i l h = Inv-entered inv (inv.together i l h)

  -- In every state that the sparse exchange reaches, in any order of the steps of its ranks: once a
  -- rank has left the loop, no message is in flight, and the callbacks have received just the
  -- messages of all ranks that are not empty, each as often as it was in a send buffer.
  pub exited-delivered :
      (n : ℕ) (input : ℕ → Messages A) (s : System A)
      → Reach n (init input) s
      → (i : ℕ) → i < n
      → exited (s.pc i) ≡ true
      → (s.in_flight ≡ [])
        × ((test : SentMessage A → Bool)
            → count_if test s.received ≡ total n (count_messages test) input)
  exited-delivered n input s r i l h = Inv-delivered (Reach-Inv (init-Inv n input) r) i l h
