-- ===== src/Reduce/Buffer/Values.antt =====
-- The values that a message buffer gives back, where all that comes in satisfies a predicate on an index
-- and its value.
use mping.Prelude.{
  zero, ◌+◌, ◌*◌, ◌-◌, take, drop, replicate, length, leb, ltb, suc, ◌||◌, ◌++◌, ℕ, ◌≡◌, inl, inr,
  refl, subst, List, [], ◌∷◌, Option, some, none, ◌==◌, ==_iff, Bool-cases, Option-cases,
}
use mping.Blocks.{resize}
use mping.Reduce.Buffer.{
  MessageBufferEntry, MessageBuffer, flush, flush_to, wait, put, prepare, store, get, receive, find,
  assign, assign_all, received, erase, is_empty, max_message_length, addressed_to_other,
}
use mping.Reduce.Buffer.Fifo.{
  IsValid, accepted, flush_to-IsValid, flush_to-accepted, wait-IsValid, wait-accepted,
}
use mping.Reduce.Buffer.Runs.{Contains, get-total}

module _ {ℓ κ} {A : Type ℓ} (P : ℕ → A → Type κ) where
  abbrev pub AllRight : List (MessageBufferEntry A) → Type κ
  AllRight [] = Unit
  AllRight (e ∷ entries) = P e.index e.value × AllRight entries

  find-AllRight :
      (i : ℕ) (v : A) (entries : List (MessageBufferEntry A))
      → AllRight entries
      → find i entries ≡ some v
      → P i v
  find-AllRight i v [] h e = absurd cc
  find-AllRight i v (x ∷ entries) h e = elim (Bool-cases (x.index == i)) [
    | inl y ↦
        let same : x.value ≡ v = cc (rw y at e) in
        subst (P i) same (subst (λ j. P j x.value) ((==_iff x.index i).0 y) h.0)
    | inr n ↦ find-AllRight i v entries h.1 (rw n at e)
  ]

  assign-AllRight :
      (i : ℕ) (v : A) (inbox : List (MessageBufferEntry A))
      → P i v
      → AllRight inbox
      → AllRight (assign i v inbox)
  assign-AllRight i v [] p h = (p, tt)
  assign-AllRight i v (e ∷ inbox) p h = elim (Bool-cases (e.index == i)) [
    | inl y ↦ rw y (p, h.1)
    | inr n ↦ rw n (h.0, assign-AllRight i v inbox p h.1)
  ]

  assign_all-AllRight :
      (entries inbox : List (MessageBufferEntry A))
      → AllRight entries
      → AllRight inbox
      → AllRight (assign_all entries inbox)
  assign_all-AllRight [] inbox h k = k
  assign_all-AllRight (e ∷ entries) inbox h k =
      assign_all-AllRight entries _ h.1 (assign-AllRight e.index e.value inbox h.0 k)

  erase-AllRight :
      (i : ℕ) (inbox : List (MessageBufferEntry A)) → AllRight inbox → AllRight (erase i inbox)
  erase-AllRight i [] h = h
  erase-AllRight i (e ∷ inbox) h = elim (Bool-cases (e.index == i)) [
    | inl y ↦ rw y h.1
    | inr n ↦ rw n (h.0, erase-AllRight i inbox h.1)
  ]

  AllRight-append :
      (xs ys : List (MessageBufferEntry A)) → AllRight xs → AllRight ys → AllRight (xs ++ ys)
  AllRight-append [] ys h k = k
  AllRight-append (x ∷ xs) ys h k = (h.0, AllRight-append xs ys h.1 k)

  AllRight-take : (n : ℕ) (xs : List (MessageBufferEntry A)) → AllRight xs → AllRight (take n xs)
  AllRight-take zero xs h = tt
  AllRight-take (suc n) [] h = tt
  AllRight-take (suc n) (x ∷ xs) h = (h.0, AllRight-take n xs h.1)

  AllRight-drop : (n : ℕ) (xs : List (MessageBufferEntry A)) → AllRight xs → AllRight (drop n xs)
  AllRight-drop zero xs h = h
  AllRight-drop (suc n) [] h = tt
  AllRight-drop (suc n) (x ∷ xs) h = AllRight-drop n xs h.1

  AllRight-replicate :
      (n : ℕ) (x : MessageBufferEntry A) → P x.index x.value → AllRight (replicate n x)
  AllRight-replicate zero x p = tt
  AllRight-replicate (suc n) x p = (p, AllRight-replicate n x p)

  -- What the buffer holds of received entries: those not asked for, and those of old messages.
  abbrev pub IsInformed : MessageBuffer A → Type κ
  IsInformed s = AllRight s.inbox × AllRight s.buffer

  received-AllRight :
      (entries : List (MessageBufferEntry A)) (s : MessageBuffer A)
      → P 0 s.default_value
      → AllRight entries
      → AllRight s.buffer
      → AllRight (received entries s)
  received-AllRight entries s p h k =
      let blank : MessageBufferEntry A = record { index = 0; value = s.default_value } in
      let n = max_message_length * s.entry_bytes in
      AllRight-append entries _ h (
        AllRight-drop (0 + length entries) (resize blank n s.buffer) (
          AllRight-append (take n s.buffer) _ (AllRight-take n s.buffer k)
            (AllRight-replicate (n - length s.buffer) blank p)))

  flush_to-IsInformed :
      (t : Option ℕ) (s : MessageBuffer A) → IsInformed s → IsInformed (flush_to t s)
  flush_to-IsInformed none s k = k
  flush_to-IsInformed (some t) s k = elim (Bool-cases (is_empty s.outbox)) [
    | inl y ↦ rw y k
    | inr n ↦ rw n k
  ]

  wait-IsInformed : (s : MessageBuffer A) → IsInformed s → IsInformed (wait s)
  unfolding wait
  wait-IsInformed s k = elim (Bool-cases s.send_buffer_clear) [ inl y ↦ rw y k | inr n ↦ rw n k ]

  -- New entries of the receive buffer have index 0, of which all values have to be right.
  get-IsInformed :
      (source i : ℕ) (entries : List (MessageBufferEntry A)) (s s' : MessageBuffer A) (v : A)
      → ((x : A) → P 0 x)
      → AllRight entries
      → IsInformed s
      → get (λ r. some entries) source i s ≡ some (v, s')
      → P i v × IsInformed s'
  unfolding get receive flush
  get-IsInformed source i entries s s' v p h k e = elim (Option-cases (find i s.inbox)) [
    | inr (x, found) ↦
        let e' = rw found at e in
        let same : x ≡ v = cc e' in
        let left : record s { inbox = erase i s.inbox } ≡ s' = cc e' in
        (
          subst (P i) same (find-AllRight i x s.inbox k.0 found),
          subst IsInformed left (erase-AllRight i s.inbox k.0, k.1),
        )
    | inl missing ↦
        let waited = wait (flush_to s.target_rank s) in
        let kept =
          wait-IsInformed (flush_to s.target_rank s) (flush_to-IsInformed s.target_rank s k) in
        let room = received entries waited in
        let room_right = received-AllRight entries waited (p _) h kept.1 in
        let inbox = assign_all room waited.inbox in
        let right = assign_all-AllRight room waited.inbox room_right kept.0 in
        elim (Option-cases (find i inbox)) [
          | inl none_found ↦ absurd (cc (rw (missing, none_found) at e))
          | inr (x, found) ↦
              let e' = rw (missing, found) at e in
              let same : x ≡ v = cc e' in
              let left : record waited { buffer = room; inbox = erase i inbox } ≡ s' = cc e' in
              (
                subst (P i) same (find-AllRight i x inbox right found),
                subst IsInformed left (erase-AllRight i inbox right, room_right),
              )
        ]
  ]

  prepare-IsInformed :
      (target : ℕ) (s : MessageBuffer A) → IsInformed s → IsInformed (prepare target s)
  unfolding prepare flush
  prepare-IsInformed target s k =
      elim (Bool-cases
        (leb max_message_length (length s.outbox) || addressed_to_other s.target_rank target)) [
          | inl y ↦ rw y (wait-IsInformed _ (flush_to-IsInformed s.target_rank s k))
          | inr n ↦ rw n (wait-IsInformed s k)
        ]

  store-IsInformed :
      (target i : ℕ) (x : A) (s : MessageBuffer A) → IsInformed s → IsInformed (store target i x s)
  unfolding store flush
  store-IsInformed target i x s k =
      elim (Bool-cases
        (leb max_message_length (length (s.outbox ++ record { index = i; value = x } ∷ [])))) [
          | inl y ↦ rw y (flush_to-IsInformed (some target) _ k)
          | inr n ↦ rw n k
        ]

  pub put-IsInformed :
      (target i : ℕ) (x : A) (s s' : MessageBuffer A)
      → put target i x s ≡ some s'
      → IsInformed s
      → IsInformed s'
  unfolding put
  put-IsInformed target i x s s' e k =
      elim (Bool-cases (ltb (length (prepare target s).outbox) (suc max_message_length))) [
        | inl y ↦
            let same : store target i x (prepare target s) ≡ s' = cc (rw y at e) in
            subst IsInformed same (store-IsInformed target i x _ (prepare-IsInformed target s k))
        | inr n ↦ absurd (cc (rw n at e))
      ]

  pub flush-IsInformed :
      (s : MessageBuffer A)
      → IsValid s
      → IsInformed s
      → IsValid (flush s) × IsInformed (flush s) × (accepted (flush s) ≡ accepted s)
  unfolding flush
  flush-IsInformed s v k = (
    (flush_to-IsValid s.target_rank s refl v).0,
    flush_to-IsInformed s.target_rank s k,
    flush_to-accepted s.target_rank s refl,
  )

  pub waited-IsInformed :
      (s : MessageBuffer A)
      → IsValid s
      → IsInformed s
      → IsValid (wait s) × IsInformed (wait s) × (accepted (wait s) ≡ accepted s)
  waited-IsInformed s v k = ((wait-IsValid s v).0, wait-IsInformed s k, wait-accepted s v)

  -- A get whose message has the index and is right gives a right value, and keeps the buffer right.
  pub get-right :
      (source i : ℕ) (entries : List (MessageBufferEntry A)) (s : MessageBuffer A)
      → ((x : A) → P 0 x)
      → Contains i entries
      → IsValid s
      → AllRight entries
      → IsInformed s
      → (v : A) × (s' : MessageBuffer A) × (get (λ r. some entries) source i s ≡ some (v, s'))
        × IsValid s'
        × P i v
        × IsInformed s'
        × (accepted s' ≡ accepted s)
  get-right source i entries s p c valid h k =
      let (v, s', e, valid', same) = get-total source i entries s c valid in
      let (q, k') = get-IsInformed source i entries s s' v p h k e in
      (v, s', e, valid', q, k', same)

-- Of the receives only the one from the source counts.
pub get-recv {ℓ} :
    {A : Type ℓ} (recv : ℕ → Option (List (MessageBufferEntry A))) (source i : ℕ)
    (entries : List (MessageBufferEntry A)) (s : MessageBuffer A)
    → recv source ≡ some entries
    → get recv source i s ≡ get (λ r. some entries) source i s
unfolding get
get-recv recv source i entries s e = elim (Option-cases (find i s.inbox)) [
  | inl missing ↦ rw (missing, e) refl
  | inr (x, found) ↦ rw found refl
]
