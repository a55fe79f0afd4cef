-- ===== src/Sparse/Invariant.antt =====
-- What every step of the sparse exchange keeps.
use mping.Prelude.{
  ℕ, ◌+◌, ◌<◌, ◌≡◌, refl, ap, sym, ◌∙◌, ◌==◌, ==_iff, inl, inr, Bool, true, false, if◌then◌else◌,
  Bool-cases, List, [], ◌∷◌, ◌++◌, length, update, total, total-update, total-same, count_if,
  count_if-append, subst, arith,
}
use mping.Sparse.{
  Messages, SentMessage, Pc, sending, probing, testing, leaving, returned, System, entered, exited,
  sent_by, sent_message, init, Step, Reach, skip_empty, issend, enter_loop, iprobe_hit, iprobe_miss,
  test_all_done, test_pending, test_done, barrier, here, later,
}

module _ {ℓ} {A : Type ℓ} where
  -- The messages for which a send is still to come, counted where they pass a test.
  abbrev pub count_messages : (SentMessage A → Bool) → ℕ → Messages A → ℕ
  count_messages test i [] = 0
  count_messages test i ((d, []) ∷ rest) = count_messages test i rest
  count_messages test i ((d, x ∷ m) ∷ rest) =
      (if test (sent_message i d (x ∷ m)) then 1 else 0) + count_messages test i rest

  abbrev pub unsent : (SentMessage A → Bool) → ℕ → Pc A → ℕ
  unsent test i (sending messages) = count_messages test i messages
  unsent test i (probing b) = 0
  unsent test i (testing b) = 0
  unsent test i leaving = 0
  unsent test i returned = 0

  abbrev pub AllBelow : ℕ → List (SentMessage A) → Type 0
  AllBelow n [] = Unit {0}
  AllBelow n (e ∷ es) = (e.source < n) × (e.destination < n) × AllBelow n es

  -- `whole` counts the messages that there are to exchange.
  pub record Inv (n : ℕ) (whole : (SentMessage A → Bool) → ℕ) (s : System A) : Type ℓ where
    pub kept :
        (test : SentMessage A → Bool)
        → count_if test s.received + count_if test s.in_flight + total n (unsent test) s.pc
          ≡ whole test
    pub quiet : (i : ℕ) → entered (s.pc i) ≡ true → count_if (sent_by i) s.in_flight ≡ 0
    pub together :
        (i : ℕ) → i < n → exited (s.pc i) ≡ true → (j : ℕ) → j < n → entered (s.pc j) ≡ true
    pub below : AllBelow n s.in_flight

  abbrev Together : ℕ → (ℕ → Pc A) → Type 0
  Together n pc = (i : ℕ) → i < n → exited (pc i) ≡ true → (j : ℕ) → j < n → entered (pc j) ≡ true

  pub update-entered :
      (pc : ℕ → Pc A) (i : ℕ) (new : Pc A)
      → (entered (pc i) ≡ true → entered new ≡ true)
      → (m : ℕ) → entered (pc m) ≡ true
      → entered (update pc i new m) ≡ true
  update-entered pc i new grows m h = elim (Bool-cases (m == i)) [
    | inl same ↦ rw same (grows (subst (λ k. entered (pc k) ≡ true) ((==_iff m i).0 same) h))
    | inr other ↦ rw other h
  ]

  update-Together :
      (n : ℕ) (pc : ℕ → Pc A) (i : ℕ) (new : Pc A)
      → Together n pc
      → (entered (pc i) ≡ true → entered new ≡ true)
      → (exited new ≡ true → (j : ℕ) → j < n → entered (pc j) ≡ true)
      → Together n (update pc i new)
  update-Together n pc i new together grows all j k h m o = elim (Bool-cases (j == i)) [
    | inl same ↦ update-entered pc i new grows m (all (rw same at h) m o)
    | inr other ↦ update-entered pc i new grows m (together j k (rw other at h) m o)
  ]

  AllBelow-append :
      (n : ℕ) (xs ys : List (SentMessage A)) → AllBelow n xs → AllBelow n ys → AllBelow n (xs ++ ys)
  AllBelow-append n [] ys hx hy = hy
  AllBelow-append n (x ∷ xs) ys hx hy = (hx.0, hx.1, AllBelow-append n xs ys hx.2 hy)

  AllBelow-without :
      (n : ℕ) (xs ys : List (SentMessage A)) (e : SentMessage A)
      → AllBelow n (xs ++ (e ∷ ys))
      → AllBelow n (xs ++ ys)
  AllBelow-without n [] ys e h = h.2
  AllBelow-without n (x ∷ xs) ys e h = (h.0, h.1, AllBelow-without n xs ys e h.2)

  module _ {n : ℕ} {whole : (SentMessage A → Bool) → ℕ} {s : System A} (inv : Inv n whole s) where
    -- A step of rank `i` that leaves the messages alone.
    move-Inv :
        (i : ℕ) (old new : Pc A)
        → i < n
        → s.pc i ≡ old
        → ((test : SentMessage A → Bool) → unsent test i old ≡ unsent test i new)
        → (entered new ≡ true → count_if (sent_by i) s.in_flight ≡ 0)
        → (entered old ≡ true → entered new ≡ true)
        → (exited new ≡ true → (j : ℕ) → j < n → entered (s.pc j) ≡ true)
        → Inv n whole (record s { pc = update s.pc i new })
    move-Inv i old new l e same quiet grows together = record {
      kept = λ test. omega (
        arith,
        inv.kept test,
        same test,
        total-update n i (unsent test) s.pc new l,
        ap (unsent test i) e,
      );
      quiet = λ j h. elim (Bool-cases (j == i)) [
        | inl at_i ↦
            subst (λ k. count_if (sent_by k) s.in_flight ≡ 0) (sym ((==_iff j i).0 at_i))
              (quiet (rw at_i at h))
        | inr other ↦ inv.quiet j (rw other at h)
      ];
      together =
          update-Together n s.pc i new inv.together (λ h. grows (subst (λ c. entered c ≡ true) e h))
            together;
      below = inv.below;
    }

    issend-Inv :
        (i d : ℕ) (m : List A) (rest : Messages A)
        → i < n
        → d < n
        → s.pc i ≡ sending ((d, m) ∷ rest)
        → 0 < length m
        → Inv n whole (record s {
          pc = update s.pc i (sending rest);
          in_flight = s.in_flight ++ (sent_message i d m ∷ []);
        })
    issend-Inv i d [] rest l k e nonempty = absurd (omega arith)
    issend-Inv i d (x ∷ m) rest l k e nonempty = record {
      kept = λ test. omega (
        arith,
        inv.kept test,
        total-update n i (unsent test) s.pc (sending rest) l,
        ap (unsent test i) e,
        count_if-append test s.in_flight (sent_message i d (x ∷ m) ∷ []),
      );
      quiet = λ j h. elim (Bool-cases (j == i)) [
        | inl at_i ↦ cc (rw at_i at h)
        | inr other ↦
            let apart : (i == j) ≡ false = ground arith in
            rw (count_if-append (sent_by j) s.in_flight (sent_message i d (x ∷ m) ∷ []), apart)
              (omega (arith, inv.quiet j (rw other at h)))
      ];
      together =
          update-Together n s.pc i (sending rest) inv.together
            (λ h. cc (subst (λ c. entered c ≡ true) e h)) (λ h. cc);
      below = AllBelow-append n s.in_flight (sent_message i d (x ∷ m) ∷ []) inv.below (l, k, tt);
    }

    hit-Inv :
        (i : ℕ) (b : Bool) (before after : List (SentMessage A)) (e : SentMessage A)
        → i < n
        → s.pc i ≡ probing b
        → s.in_flight ≡ before ++ (e ∷ after)
        → Inv n whole (record {
          pc = update s.pc i (testing b);
          in_flight = before ++ after;
          received = s.received ++ (e ∷ []);
        })
    hit-Inv i b before after e l at flight = record {
      kept = λ test. omega (
        arith,
        inv.kept test,
        total-update n i (unsent test) s.pc (testing b) l,
        ap (unsent test i) at,
        count_if-append test s.received (e ∷ []),
        ap (count_if test) flight,
        count_if-append test before (e ∷ after),
        count_if-append test before after,
      );
      quiet = λ j h.
          let was : entered (s.pc j) ≡ true = elim (Bool-cases (j == i)) [
            | inl at_i ↦
                let b_true : b ≡ true = rw at_i at h in
                subst (λ k. entered (s.pc k) ≡ true) (sym ((==_iff j i).0 at_i))
                  (ap entered at ∙ b_true)
            | inr other ↦ rw other at h
          ] in
          omega (
            arith,
            inv.quiet j was,
            ap (count_if (sent_by j)) flight,
            count_if-append (sent_by j) before (e ∷ after),
            count_if-append (sent_by j) before after,
          );
      together =
          update-Together n s.pc i (testing b) inv.together (λ h. sym (ap entered at) ∙ h)
            (λ h. cc);
      below = AllBelow-without n before after e (subst (AllBelow n) flight inv.below);
    }

  pub Step-Inv :
      {n : ℕ} {whole : (SentMessage A → Bool) → ℕ} {s t : System A}
      → Step n s t
      → Inv n whole s
      → Inv n whole t
  Step-Inv (skip_empty i d rest l e) inv =
      move-Inv inv i _ (sending rest) l e (λ test. refl) (λ h. cc) (λ h. cc) (λ h. cc)
  Step-Inv (issend i d m rest l k e nonempty fits) inv = issend-Inv inv i d m rest l k e nonempty
  Step-Inv (enter_loop i l e) inv =
      move-Inv inv i _ (probing false) l e (λ test. refl) (λ h. cc) (λ h. cc) (λ h. cc)
  Step-Inv (iprobe_hit i b before after e l at flight to_i first) inv =
      hit-Inv inv i b before after e l at flight
  Step-Inv (iprobe_miss i b l e) inv =
      move-Inv inv i _ (testing b) l e (λ test. refl) (λ h. inv.quiet i (ap entered e ∙ h)) (λ h. h)
        (λ h. cc)
  Step-Inv (test_all_done i l e none_left) inv =
      move-Inv inv i _ (probing true) l e (λ test. refl) (λ h. none_left) (λ h. refl) (λ h. cc)
  Step-Inv (test_pending i b l e) inv =
      move-Inv inv i _ (probing b) l e (λ test. refl) (λ h. inv.quiet i (ap entered e ∙ h)) (λ h. h)
        (λ h. cc)
  Step-Inv (test_done i l e all) inv =
      move-Inv inv i _ leaving l e (λ test. refl) (λ h. inv.quiet i (ap entered e)) (λ h. refl)
        (λ h. all)
  Step-Inv (barrier i l e all) inv =
      move-Inv inv i _ returned l e (λ test. refl) (λ h. inv.quiet i (ap entered e)) (λ h. refl)
        (λ h. inv.together i l (ap exited e))

  pub Reach-Inv :
      {n : ℕ} {whole : (SentMessage A → Bool) → ℕ} {s t : System A}
      → Inv n whole s
      → Reach n s t
      → Inv n whole t
  Reach-Inv inv here = inv
  Reach-Inv inv (later r st) = Step-Inv st (Reach-Inv inv r)

  pub init-Inv :
      (n : ℕ) (input : ℕ → Messages A)
      → Inv n (λ test. total n (count_messages test) input) (init input)
  init-Inv n input = record {
    kept = λ test.
        omega (
          arith,
          total-same n (unsent test) (count_messages test) (init input).pc input (λ i. refl),
        );
    quiet = λ i h. refl;
    together = λ i l h. cc;
    below = tt;
  }
