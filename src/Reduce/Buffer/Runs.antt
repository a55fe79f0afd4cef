-- ===== src/Reduce/Buffer/Runs.antt =====
-- Runs of the calls of a program on the message buffer.
use mathlib.Core.List.{append_assoc, append-nil}
use mping.Prelude.{
  ℕ, ◌≡◌, ◌⊎◌, inl, inr, refl, ap, sym, ◌∙◌, false, List, [], ◌∷◌, ◌++◌, some, ◌==◌, ==_refl,
  Bool-cases, Option-cases, arith,
}
use mping.Reduce.Buffer.{
  MessageBufferEntry, MessageBuffer, flush, flush_to, wait, get, receive, find, assign, assign_all,
  erase, received, Operation, puts, flushes, gets, operate, run,
}
use mping.Reduce.Buffer.Fifo.{
  IsValid, accepted, put-accepted, flush_to-IsValid, flush_to-accepted, wait-IsValid, wait-accepted,
}

module _ {ℓ} {A : Type ℓ} where
  -- What the calls put, in order.
  abbrev pub put_by : List (Operation A) → List (ℕ × MessageBufferEntry A)
  put_by [] = []
  put_by (puts target i x ∷ os) = (target, record { index = i; value = x }) ∷ put_by os
  put_by (flushes ∷ os) = put_by os
  put_by (gets source i brought ∷ os) = put_by os

  abbrev pub Contains : ℕ → List (MessageBufferEntry A) → Type 0
  Contains i [] = ⊥
  Contains i (e ∷ entries) = (e.index ≡ i) ⊎ Contains i entries

  -- The message that comes for each `get` has an entry with the index asked for.
  abbrev pub Answered : List (Operation A) → Type ℓ
  Answered [] = Unit
  Answered (puts target i x ∷ os) = Answered os
  Answered (flushes ∷ os) = Answered os
  Answered (gets source i brought ∷ os) =
      ((entries : List (MessageBufferEntry A)) × (brought ≡ some entries) × Contains i entries)
      × Answered os

  Contains-append :
      (i : ℕ) (xs ys : List (MessageBufferEntry A)) → Contains i xs → Contains i (xs ++ ys)
  Contains-append i [] ys c = absurd c
  Contains-append i (e ∷ xs) ys (inl h) = inl h
  Contains-append i (e ∷ xs) ys (inr c) = inr (Contains-append i xs ys c)

  abbrev Has : ℕ → List (MessageBufferEntry A) → Type ℓ
  Has i inbox = (v : A) × (find i inbox ≡ some v)

  Has-assign : (i : ℕ) (v : A) (inbox : List (MessageBufferEntry A)) → Has i (assign i v inbox)
  Has-assign i v [] = (v, rw (==_refl i) refl)
  Has-assign i v (e ∷ inbox) = elim (Bool-cases (e.index == i)) [
    | inl y ↦ rw y (v, rw (==_refl i) refl)
    | inr n ↦ rw n (rw n (Has-assign i v inbox))
  ]

  Has-assign_other :
      (i j : ℕ) (v : A) (inbox : List (MessageBufferEntry A))
      → Has i inbox
      → Has i (assign j v inbox)
  Has-assign_other i j v [] h = absurd cc
  Has-assign_other i j v (e ∷ inbox) h = elim (Bool-cases (e.index == j)) [
    | inl y ↦ elim (Bool-cases (j == i)) [
      | inl z ↦ rw (y, z) (v, refl)
      | inr z ↦ let other : (e.index == i) ≡ false = ground arith in rw (y, z) (rw other at h)
    ]
    | inr n ↦ elim (Bool-cases (e.index == i)) [
      | inl z ↦ rw (n, z) (e.value, refl)
      | inr z ↦ rw (n, z) (Has-assign_other i j v inbox (rw z at h))
    ]
  ]

  Has-assign_all :
      (i : ℕ) (entries inbox : List (MessageBufferEntry A))
      → Has i inbox
      → Has i (assign_all entries inbox)
  Has-assign_all i [] inbox h = h
  Has-assign_all i (e ∷ entries) inbox h =
      Has-assign_all i entries _ (Has-assign_other i e.index e.value inbox h)

  Has-received :
      (i : ℕ) (entries inbox : List (MessageBufferEntry A))
      → Contains i entries
      → Has i (assign_all entries inbox)
  Has-received i [] inbox c = absurd c
  Has-received i (e ∷ entries) inbox (inl h) =
      Has-assign_all i entries _ (rw h (Has-assign i e.value inbox))
  Has-received i (e ∷ entries) inbox (inr c) = Has-received i entries _ c

  pub get-total :
      (source i : ℕ) (entries : List (MessageBufferEntry A)) (s : MessageBuffer A)
      → Contains i entries
      → IsValid s
      → (v : A) × (s' : MessageBuffer A) × (get (λ r. some entries) source i s ≡ some (v, s'))
        × IsValid s'
        × (accepted s' ≡ accepted s)
  unfolding get receive flush
  get-total source i entries s c v = elim (Option-cases (find i s.inbox)) [
    | inr (x, e) ↦ (
      x,
      record s { inbox = erase i s.inbox },
      rw e refl,
      record { phase = v.phase; fits = v.fits; counted = v.counted },
      refl,
    )
    | inl e ↦
        let (f, g) = flush_to-IsValid s.target_rank s refl v in
        let (w, c', k) = wait-IsValid (flush_to s.target_rank s) f in
        let waited = wait (flush_to s.target_rank s) in
        let room = received entries waited in
        let (x, h) = Has-received i room waited.inbox (Contains-append i entries _ c) in
        (
          x,
          record waited { buffer = room; inbox = erase i (assign_all room waited.inbox) },
          rw (e, h) refl,
          record { phase = w.phase; fits = w.fits; counted = w.counted },
          wait-accepted (flush_to s.target_rank s) f ∙ flush_to-accepted s.target_rank s refl,
        )
  ]

  operate-total :
      (o : Operation A) (s : MessageBuffer A)
      → Answered (o ∷ [])
      → IsValid s
      → (s' : MessageBuffer A) × (operate o s ≡ some s')
        × IsValid s'
        × (accepted s' ≡ accepted s ++ put_by (o ∷ []))
  unfolding operate flush
  operate-total (puts target i x) s a v = put-accepted target i x s v
  operate-total flushes s a v = (
    flush_to s.target_rank s,
    refl,
    (flush_to-IsValid s.target_rank s refl v).0,
    flush_to-accepted s.target_rank s refl ∙ sym (append-nil _),
  )
  operate-total (gets source i brought) s a v =
      let (entries, b, c) = a.0 in
      let (x, s', e, w, k) = get-total source i entries s c v in
      (s', rw (b, e) refl, w, k ∙ sym (append-nil _))

  one : (o : Operation A) (os : List (Operation A)) → Answered (o ∷ os) → Answered (o ∷ [])
  one (puts target i x) os a = tt
  one flushes os a = tt
  one (gets source i brought) os a = (a.0, tt)

  others : (o : Operation A) (os : List (Operation A)) → Answered (o ∷ os) → Answered os
  others (puts target i x) os a = a
  others flushes os a = a
  others (gets source i brought) os a = a.1

  put_by-cons :
      (o : Operation A) (os : List (Operation A)) → put_by (o ∷ []) ++ put_by os ≡ put_by (o ∷ os)
  put_by-cons (puts target i x) os = refl
  put_by-cons flushes os = refl
  put_by-cons (gets source i brought) os = refl

  -- From a valid message buffer and for any sequence of puts, flushes and gets, where the message
  -- that comes for a get has an entry with the index asked for: no call fails, the buffer stays
  -- valid, which bounds every message by the maximal length, and what has been dispatched and what
  -- still waits are, together and in order, the entries that were there before and then all the
  -- entries put, each with the rank that it was put for.
  pub run-accepted :
      (os : List (Operation A)) (s : MessageBuffer A)
      → Answered os
      → IsValid s
      → (s' : MessageBuffer A) × (run os s ≡ some s')
        × IsValid s'
        × (accepted s' ≡ accepted s ++ put_by os)
  unfolding run
  run-accepted [] s a v = (s, refl, v, sym (append-nil _))
  run-accepted (o ∷ os) s a v =
      let (s', e, w, k) = operate-total o s (one o os a) v in
      let (s'', e', w', k') = run-accepted os s' (others o os a) w in
      (
        s'',
        rw e e',
        w',
        k'
            ∙ ap (λ l. l ++ put_by os) k
            ∙ append_assoc (accepted s) (put_by (o ∷ [])) (put_by os)
            ∙ ap (λ l. accepted s ++ l) (put_by-cons o os),
      )
