-- ===== src/Sparse/Turns.antt =====
-- Steps of the sparse exchange that lower a measure of what is left to do.
use mping.Prelude.{
  ℕ, ◌+◌, ◌*◌, ◌^◌, ◌<◌, ◌≡◌, refl, ap, Bool, true, false, if◌then◌else◌, List, [], ◌∷◌, ◌++◌,
  length, length-append, update, update_self, total, total-update, count_if, arith,
}
use mping.Sparse.{
  Messages, SentMessage, Pc, sending, probing, testing, leaving, returned, System, entered, exited,
  sent_by, sent_message, Reach, skip_empty, issend, enter_loop, iprobe_hit, iprobe_miss,
  test_all_done, test_pending, test_done, barrier, here, later,
}
use mping.Sparse.Invariant.{update-entered}

module _ {ℓ} {A : Type ℓ} where
  -- Each message is for a rank of the communicator, and its size is an `int`.
  abbrev pub Sendable : ℕ → Messages A → Type 0
  Sendable n [] = Unit {0}
  Sendable n ((d, m) ∷ rest) = (d < n) × (length m < 2 ^ 31) × Sendable n rest

  abbrev pub SendableAt : ℕ → Pc A → Type 0
  SendableAt n (sending messages) = Sendable n messages
  SendableAt n (probing b) = Unit {0}
  SendableAt n (testing b) = Unit {0}
  SendableAt n leaving = Unit {0}
  SendableAt n returned = Unit {0}

  pub weight : ℕ → Pc A → ℕ
  weight i (sending messages) = 4 + 2 * length messages
  weight i (probing b) = if b then 2 else 3
  weight i (testing b) = if b then 2 else 3
  weight i leaving = 1
  weight i returned = 0

  pub measure : ℕ → System A → ℕ
  measure n s = total n weight s.pc + length s.in_flight

  abbrev pub is_sending : Pc A → Bool
  is_sending (sending messages) = true
  is_sending (probing b) = false
  is_sending (testing b) = false
  is_sending leaving = false
  is_sending returned = false

  abbrev pub is_leaving : Pc A → Bool
  is_leaving (sending messages) = false
  is_leaving (probing b) = false
  is_leaving (testing b) = false
  is_leaving leaving = true
  is_leaving returned = false

  pub Reach-trans : {n : ℕ} {s t u : System A} → Reach n s t → Reach n t u → Reach n s u
  Reach-trans r here = r
  Reach-trans r (later q st) = later (Reach-trans r q) st

  abbrev pub Progress : ℕ → System A → Type ℓ
  Progress n s = (t : System A) × Reach n s t × (measure n t < measure n s)

  -- The measure after a change of rank `i`.
  measure-update :
      (n : ℕ) (s : System A) (i : ℕ) (old new : Pc A) (flight got : List (SentMessage A))
      → i < n
      → s.pc i ≡ old
      → measure n (record { pc = update s.pc i new; in_flight = flight; received = got })
          + weight i old
          + length s.in_flight
        ≡ measure n s + weight i new + length flight
  unfolding measure
  measure-update n s i old new flight got l e =
      omega (arith, total-update n i weight s.pc new l, ap (weight i) e)

  module _ (n : ℕ) (s : System A) where
    -- Rank `i` moves on and leaves the messages alone.
    moved_less :
        (i : ℕ) (old new : Pc A)
        → i < n
        → s.pc i ≡ old
        → weight i new < weight i old
        → measure n (record s { pc = update s.pc i new }) < measure n s
    moved_less i old new l e h =
        omega (arith, measure-update n s i old new s.in_flight s.received l e)

    pub send_step :
        (i : ℕ) (c : Pc A)
        → i < n
        → s.pc i ≡ c
        → is_sending c ≡ true
        → SendableAt n c
        → Progress n s
    unfolding weight
    send_step i (sending []) l e h fits =
        (_, later here (enter_loop i l e), moved_less i _ (probing false) l e (omega arith))
    send_step i (sending ((d, []) ∷ rest)) l e h fits =
        (_, later here (skip_empty i d rest l e), moved_less i _ (sending rest) l e (omega arith))
    send_step i (sending ((d, x ∷ m) ∷ rest)) l e h fits = (
      _,
      later here (issend i d (x ∷ m) rest l fits.0 e (omega arith) fits.1),
      omega (
        arith,
        measure-update n s i _ (sending rest) (s.in_flight ++ (sent_message i d (x ∷ m) ∷ []))
            s.received l e,
        length-append s.in_flight (sent_message i d (x ∷ m) ∷ []),
      ),
    )
    send_step i (probing b) l e h fits = cc
    send_step i (testing b) l e h fits = cc
    send_step i leaving l e h fits = cc
    send_step i returned l e h fits = cc

  receive_probing :
      (n : ℕ) (s : System A) (i : ℕ) (b : Bool) (e : SentMessage A) (es : List (SentMessage A))
      → i < n
      → s.pc i ≡ probing b
      → s.in_flight ≡ e ∷ es
      → e.destination ≡ i
      → Progress n s
  unfolding weight
  receive_probing n s i b e es l at flight to_i = (
    _,
    later here (iprobe_hit i b [] es e l at flight to_i refl),
    omega (
      arith,
      measure-update n s i _ (testing b) es (s.received ++ (e ∷ [])) l at,
      ap length flight,
    ),
  )

  -- A rank in the loop of whose test nothing comes probes again.
  probe_again :
      (n : ℕ) (s : System A) (i : ℕ) (b : Bool)
      → i < n
      → s.pc i ≡ testing b
      → Progress n (record s { pc = update s.pc i (probing b) })
      → Progress n s
  unfolding weight
  probe_again n s i b l at (t, r, less) = (
    t,
    Reach-trans (later here (test_pending i b l at)) r,
    omega (arith, measure-update n s i _ (probing b) s.in_flight s.received l at, less),
  )

  test_next :
      (n : ℕ) (s : System A) (i : ℕ) (b : Bool)
      → i < n
      → s.pc i ≡ probing b
      → Progress n (record s { pc = update s.pc i (testing b) })
      → Progress n s
  unfolding weight
  test_next n s i b l at (t, r, less) = (
    t,
    Reach-trans (later here (iprobe_miss i b l at)) r,
    omega (arith, measure-update n s i _ (testing b) s.in_flight s.received l at, less),
  )

  pub receive_step :
      (n : ℕ) (s : System A) (i : ℕ) (c : Pc A) (e : SentMessage A) (es : List (SentMessage A))
      → i < n
      → s.pc i ≡ c
      → is_sending c ≡ false
      → exited c ≡ false
      → s.in_flight ≡ e ∷ es
      → e.destination ≡ i
      → Progress n s
  receive_step n s i (sending ms) e es l at h k flight to_i = cc
  receive_step n s i (probing b) e es l at h k flight to_i =
      receive_probing n s i b e es l at flight to_i
  receive_step n s i (testing b) e es l at h k flight to_i =
      probe_again n s i b l at
        (receive_probing n _ i b e es l (update_self s.pc i (probing b)) flight to_i)
  receive_step n s i leaving e es l at h k flight to_i = cc
  receive_step n s i returned e es l at h k flight to_i = cc

  enter_testing :
      (n : ℕ) (s : System A) (i : ℕ)
      → i < n
      → s.pc i ≡ testing false
      → s.in_flight ≡ []
      → Progress n s
  unfolding weight
  enter_testing n s i l at none_left = (
    _,
    later here (test_all_done i l at (ap (count_if (sent_by i)) none_left)),
    moved_less n s i _ (probing true) l at (omega arith),
  )

  pub enter_step :
      (n : ℕ) (s : System A) (i : ℕ) (c : Pc A)
      → i < n
      → s.pc i ≡ c
      → is_sending c ≡ false
      → entered c ≡ false
      → s.in_flight ≡ []
      → Progress n s
  enter_step n s i (sending ms) l at h k none_left = cc
  enter_step n s i (probing true) l at h k none_left = cc
  enter_step n s i (probing false) l at h k none_left =
      test_next n s i false l at
        (enter_testing n _ i l (update_self s.pc i (testing false)) none_left)
  enter_step n s i (testing true) l at h k none_left = cc
  enter_step n s i (testing false) l at h k none_left = enter_testing n s i l at none_left
  enter_step n s i leaving l at h k none_left = cc
  enter_step n s i returned l at h k none_left = cc

  exit_testing :
      (n : ℕ) (s : System A) (i : ℕ)
      → i < n
      → s.pc i ≡ testing true
      → ((j : ℕ) → j < n → entered (s.pc j) ≡ true)
      → Progress n s
  unfolding weight
  exit_testing n s i l at all =
      (_, later here (test_done i l at all), moved_less n s i _ leaving l at (omega arith))

  pub exit_step :
      (n : ℕ) (s : System A) (i : ℕ) (c : Pc A)
      → i < n
      → s.pc i ≡ c
      → exited c ≡ false
      → ((j : ℕ) → j < n → entered (s.pc j) ≡ true)
      → Progress n s
  exit_step n s i (sending ms) l at h all = cc (all i l, ap entered at)
  exit_step n s i (probing false) l at h all = cc (all i l, ap entered at)
  exit_step n s i (probing true) l at h all = test_next n s i true l at (
      exit_testing n _ i l (update_self s.pc i (testing true))
        (λ j k. update-entered s.pc i (testing true) (λ h. refl) j (all j k)))
  exit_step n s i (testing false) l at h all = cc (all i l, ap entered at)
  exit_step n s i (testing true) l at h all = exit_testing n s i l at all
  exit_step n s i leaving l at h all = cc
  exit_step n s i returned l at h all = cc

  pub return_step :
      (n : ℕ) (s : System A) (i : ℕ) (c : Pc A)
      → i < n
      → s.pc i ≡ c
      → is_leaving c ≡ true
      → ((j : ℕ) → j < n → exited (s.pc j) ≡ true)
      → Progress n s
  unfolding weight
  return_step n s i (sending ms) l at h all = cc
  return_step n s i (probing b) l at h all = cc
  return_step n s i (testing b) l at h all = cc
  return_step n s i leaving l at h all =
      (_, later here (barrier i l at all), moved_less n s i _ returned l at (omega arith))
  return_step n s i returned l at h all = cc
