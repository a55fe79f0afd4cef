-- ===== src/Sparse/Progress.antt =====
-- The sparse exchange can always go on to its end.
use mping.Prelude.{
  ℕ, zero, suc, ◌<◌, ◌≤◌, ◌≡◌, refl, ap, sym, ◌∙◌, ◌==◌, Bool, true, false, not, Bool-cases, inl,
  inr, ◌⊎◌, List, [], ◌∷◌, update, total, find_rank, count_if, subst, arith,
}
use mping.Sparse.{
  Messages, SentMessage, Pc, sending, probing, testing, leaving, returned, System, entered, exited,
  init, Step, Reach, skip_empty, issend, enter_loop, iprobe_hit, iprobe_miss, test_all_done,
  test_pending, test_done, barrier, here, later,
}
use mping.Sparse.Invariant.{count_messages, AllBelow, Inv, Reach-Inv, init-Inv}
use mping.Sparse.Delivery.{Inv-delivered, Inv-entered}
use mping.Sparse.Turns.{
  Sendable, SendableAt, is_sending, is_leaving, Progress, measure, send_step, receive_step,
  enter_step, exit_step, return_step, Reach-trans,
}

false_of_not : {b : Bool} → not b ≡ true → b ≡ false
false_of_not h = ground arith

true_of_not : {b : Bool} → not b ≡ false → b ≡ true
true_of_not h = ground arith

module _ {ℓ} {A : Type ℓ} where
  update-SendableAt :
      (n : ℕ) (pc : ℕ → Pc A) (i : ℕ) (new : Pc A)
      → ((j : ℕ) → j < n → SendableAt n (pc j))
      → SendableAt n new
      → (j : ℕ) → j < n
      → SendableAt n (update pc i new j)
  update-SendableAt n pc i new h k j l = elim (Bool-cases (j == i)) [
    | inl same ↦ rw same k
    | inr other ↦ rw other (h j l)
  ]

  Step-SendableAt :
      {n : ℕ} {s t : System A}
      → Step n s t
      → ((j : ℕ) → j < n → SendableAt n (s.pc j))
      → (j : ℕ) → j < n
      → SendableAt n (t.pc j)
  Step-SendableAt {n} {s} (skip_empty i d rest l e) h =
      update-SendableAt n s.pc i (sending rest) h (subst (SendableAt n) e (h i l)).2
  Step-SendableAt {n} {s} (issend i d m rest l k e nonempty fits) h =
      update-SendableAt n s.pc i (sending rest) h (subst (SendableAt n) e (h i l)).2
  Step-SendableAt {n} {s} (enter_loop i l e) h = update-SendableAt n s.pc i (probing false) h tt
  Step-SendableAt {n} {s} (iprobe_hit i b before after e l at flight to_i first) h =
      update-SendableAt n s.pc i (testing b) h tt
  Step-SendableAt {n} {s} (iprobe_miss i b l e) h = update-SendableAt n s.pc i (testing b) h tt
  Step-SendableAt {n} {s} (test_all_done i l e none_left) h =
      update-SendableAt n s.pc i (probing true) h tt
  Step-SendableAt {n} {s} (test_pending i b l e) h = update-SendableAt n s.pc i (probing b) h tt
  Step-SendableAt {n} {s} (test_done i l e all) h = update-SendableAt n s.pc i leaving h tt
  Step-SendableAt {n} {s} (barrier i l e all) h = update-SendableAt n s.pc i returned h tt

  Reach-SendableAt :
      {n : ℕ} {s t : System A}
      → Reach n s t
      → ((j : ℕ) → j < n → SendableAt n (s.pc j))
      → (j : ℕ) → j < n
      → SendableAt n (t.pc j)
  Reach-SendableAt here h = h
  Reach-SendableAt (later r st) h = Step-SendableAt st (Reach-SendableAt r h)

  abbrev pub AllReturned : ℕ → System A → Type ℓ
  AllReturned n s = (i : ℕ) → i < n → s.pc i ≡ returned

  returned_of : (c : Pc A) → exited c ≡ true → is_leaving c ≡ false → c ≡ returned
  returned_of (sending ms) h k = cc
  returned_of (probing b) h k = cc
  returned_of (testing b) h k = cc
  returned_of leaving h k = cc
  returned_of returned h k = refl

  module _ {n : ℕ} {whole : (SentMessage A → Bool) → ℕ} {s : System A} (inv : Inv n whole s) where
    -- Nothing is left to send or to receive.
    finish-Progress :
        s.in_flight ≡ []
        → ((i : ℕ) → i < n → is_sending (s.pc i) ≡ false)
        → AllReturned n s ⊎ Progress n s
    finish-Progress none_left none_sending = elim (find_rank n (λ c. not (entered c)) s.pc) [
      | inl (i, l, h) ↦
          inr (enter_step n s i (s.pc i) l refl (none_sending i l) (false_of_not h) none_left)
      | inr all ↦ elim (find_rank n (λ c. not (exited c)) s.pc) [
        | inl (i, l, h) ↦
            inr (exit_step n s i (s.pc i) l refl (false_of_not h) (λ j k. true_of_not (all j k)))
        | inr out ↦ elim (find_rank n is_leaving s.pc) [
          | inl (i, l, h) ↦ inr (return_step n s i (s.pc i) l refl h (λ j k. true_of_not (out j k)))
          | inr gone ↦ inl (λ i l. returned_of (s.pc i) (true_of_not (out i l)) (gone i l))
        ]
      ]
    ]

    flight-Progress :
        (es : List (SentMessage A))
        → s.in_flight ≡ es
        → ((i : ℕ) → i < n → is_sending (s.pc i) ≡ false)
        → AllReturned n s ⊎ Progress n s
    flight-Progress [] flight none_sending = finish-Progress flight none_sending
    flight-Progress (e ∷ es) flight none_sending =
        let d_below = (subst (AllBelow n) flight inv.below).1 in
        elim (Bool-cases (exited (s.pc e.destination))) [
          | inl out ↦ cc (sym flight ∙ (Inv-delivered inv e.destination d_below out).0)
          | inr stays ↦ inr (
              receive_step n s e.destination (s.pc e.destination) e es d_below refl
                (none_sending e.destination d_below) stays flight refl)
        ]

    progress : ((i : ℕ) → i < n → SendableAt n (s.pc i)) → AllReturned n s ⊎ Progress n s
    progress sendable = elim (find_rank n is_sending s.pc) [
      | inl (i, l, h) ↦ inr (send_step n s i (s.pc i) l refl h (sendable i l))
      | inr none_sending ↦ flight-Progress s.in_flight refl none_sending
    ]

  finishes :
      (k n : ℕ) {whole : (SentMessage A → Bool) → ℕ} (s : System A)
      → measure n s ≤ k
      → Inv n whole s
      → ((i : ℕ) → i < n → SendableAt n (s.pc i))
      → (t : System A) × Reach n s t × AllReturned n t
  finishes zero n s h inv sendable = elim (progress inv sendable) [
    | inl done ↦ (s, here, done)
    | inr (t, r, less) ↦ absurd (omega arith)
  ]
  finishes (suc k) n s h inv sendable = elim (progress inv sendable) [
    | inl done ↦ (s, here, done)
    | inr (t, r, less) ↦
        let (u, q, done) =
          finishes k n t (omega arith) (Reach-Inv inv r) (Reach-SendableAt r sendable) in
        (u, Reach-trans r q, done)
  ]

  -- If all messages are for ranks of the communicator and their sizes fit into an `int`, then from
  -- every state that the sparse exchange reaches there are steps after which every rank has
  -- returned and the callbacks have received just the messages that are not empty: no order of
  -- steps leads into a deadlock.
  pub reach-returned :
      (n : ℕ) (input : ℕ → Messages A) (s : System A)
      → ((i : ℕ) → i < n → Sendable n (input i))
      → Reach n (init input) s
      → (t : System A) × Reach n s t
        × AllReturned n t
        × ((test : SentMessage A → Bool)
            → count_if test t.received ≡ total n (count_messages test) input)
  reach-returned n input s sendable r =
      let inv = Reach-Inv (init-Inv n input) r in
      let (t, q, done) =
        finishes (measure n s) n s (omega arith) inv (Reach-SendableAt r sendable) in
      (t, q, done, (Inv-entered (Reach-Inv inv q) (λ j l. ap entered (done j l))).1)
