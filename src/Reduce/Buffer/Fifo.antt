-- ===== src/Reduce/Buffer/Fifo.antt =====
-- The message buffer is a first-in first-out channel: no entry that is put is lost, sent twice, sent to
-- another rank or overtaken.
use mathlib.Core.List.{append_assoc, append-nil}
use mping.Prelude.{
  Bool-cases, subst, ◌⊎◌, inl, inr, ℕ, suc, ◌≤◌, ◌<◌, ◌≡◌, refl, ap, sym, ◌∙◌, Bool, true, false,
  ◌||◌, List, [], ◌∷◌, ◌++◌, Option, none, some, length, length-append, ltb, leb, if◌then◌else◌,
  arith,
}
use mping.Reduce.Buffer.{
  MessageBufferEntry, Message, MessageBuffer, fresh, max_message_length, is_empty,
  addressed_to_other, flush, flush_to, wait, prepare, store, put,
}

-- The outbox is empty, or holds entries for the target, or holds those of the message under way.
abbrev Phase : Option ℕ → Bool → ℕ → Type 0
Phase none true n = n ≡ 0
Phase none false n = Unit {0}
Phase (some t) true n = (0 < n) × (n ≤ max_message_length)
Phase (some t) false n = ⊥

Phase-some :
    (t : ℕ) (b : Bool) (n : ℕ)
    → Phase (some t) b n
    → (b ≡ true) × (0 < n) × (n ≤ max_message_length)
Phase-some t true n h = (refl, h.0, h.1)
Phase-some t false n h = absurd h

Phase-sending : (t : Option ℕ) (n : ℕ) → Phase t false n → t ≡ none
Phase-sending none n h = refl
Phase-sending (some t) n h = absurd h

Phase-idle : (n : ℕ) → Phase none true n → n ≡ 0
Phase-idle n h = h

Phase-cleared : (t : Option ℕ) → t ≡ none → Phase t true 0
Phase-cleared none e = refl
Phase-cleared (some t) e = absurd cc

meant_for :
    (t : Option ℕ) (target : ℕ)
    → addressed_to_other t target ≡ false
    → (t ≡ none) ⊎ (t ≡ some target)
meant_for none target e = inl refl
meant_for (some t) target e = let same : t ≡ target = ground arith in inr (ap some same)

module _ {ℓ} {A : Type ℓ} where
  -- An entry with the rank it is for.
  abbrev addressed : ℕ → List (MessageBufferEntry A) → List (ℕ × MessageBufferEntry A)
  addressed t [] = []
  addressed t (e ∷ entries) = (t, e) ∷ addressed t entries

  abbrev sent_to : List (Message A) → List (ℕ × MessageBufferEntry A)
  sent_to [] = []
  sent_to (m ∷ ms) = addressed m.to_rank m.entries ++ sent_to ms

  abbrev pending_for : Option ℕ → List (MessageBufferEntry A) → List (ℕ × MessageBufferEntry A)
  pending_for none outbox = []
  pending_for (some t) outbox = addressed t outbox

  -- All that has been put: what was dispatched, then what waits for its message.
  abbrev pub accepted : MessageBuffer A → List (ℕ × MessageBufferEntry A)
  accepted s = sent_to s.dispatched ++ pending_for s.target_rank s.outbox

  -- Each message has at least one entry and at most the maximal number.
  abbrev pub Fits : List (Message A) → Type 0
  Fits [] = Unit {0}
  Fits (m ∷ ms) = (0 < length m.entries) × (length m.entries ≤ max_message_length) × Fits ms

  pub record IsValid (s : MessageBuffer A) : Type 0 where
    pub phase : Phase s.target_rank s.send_buffer_clear (length s.outbox)
    pub fits : Fits s.dispatched
    pub counted : s.sent_messages ≡ length s.dispatched

  addressed-append :
      (t : ℕ) (xs ys : List (MessageBufferEntry A))
      → addressed t (xs ++ ys) ≡ addressed t xs ++ addressed t ys
  addressed-append t [] ys = refl
  addressed-append t (x ∷ xs) ys = ap (λ r. (t, x) ∷ r) (addressed-append t xs ys)

  sent_to-append : (ms ns : List (Message A)) → sent_to (ms ++ ns) ≡ sent_to ms ++ sent_to ns
  sent_to-append [] ns = refl
  sent_to-append (m ∷ ms) ns =
      ap (◌++◌ (addressed m.to_rank m.entries)) (sent_to-append ms ns)
      ∙ sym (append_assoc (addressed m.to_rank m.entries) (sent_to ms) (sent_to ns))

  Fits-append :
      (ms : List (Message A)) (m : Message A)
      → Fits ms
      → 0 < length m.entries
      → length m.entries ≤ max_message_length
      → Fits (ms ++ m ∷ [])
  Fits-append [] m f p q = (p, q, tt)
  Fits-append (n ∷ ms) m f p q = (f.0, f.1, Fits-append ms m f.2 p q)

  pub flush_to-accepted :
      (t : Option ℕ) (s : MessageBuffer A)
      → s.target_rank ≡ t
      → accepted (flush_to t s) ≡ accepted s
  flush_to-accepted none s e = refl
  flush_to-accepted (some t) s e = elim (Bool-cases (is_empty s.outbox)) [
    | inl y ↦ rw y refl
    | inr n ↦ rw n (append-nil _ ∙ sent_to-append s.dispatched _ ∙ rw (e, append-nil) refl)
  ]

  some-phase :
      (s : MessageBuffer A) (t : ℕ)
      → s.target_rank ≡ some t
      → IsValid s
      → (s.send_buffer_clear ≡ true)
        × (0 < length s.outbox)
        × (length s.outbox ≤ max_message_length)
  some-phase s t e v =
      Phase-some t s.send_buffer_clear (length s.outbox)
        (subst (λ r. Phase r s.send_buffer_clear (length s.outbox)) e v.phase)

  is_empty-false : (xs : List (MessageBufferEntry A)) → 0 < length xs → is_empty xs ≡ false
  is_empty-false [] h = absurd (omega arith)
  is_empty-false (x ∷ xs) h = refl

  pub flush_to-IsValid :
      (t : Option ℕ) (s : MessageBuffer A)
      → s.target_rank ≡ t
      → IsValid s
      → IsValid (flush_to t s) × ((flush_to t s).target_rank ≡ none)
  flush_to-IsValid none s e v = (v, e)
  flush_to-IsValid (some t) s e v =
      let (c, p, q) = some-phase s t e v in
      rw (is_empty-false s.outbox p) (
        record {
          phase = tt;
          fits = Fits-append s.dispatched (record { to_rank = t; entries = s.outbox }) v.fits p q;
          counted = omega (
            arith,
            v.counted,
            length-append s.dispatched (record { to_rank = t; entries = s.outbox } ∷ []),
          );
        },
        refl,
      )

  sending-target :
      (s : MessageBuffer A) → s.send_buffer_clear ≡ false → IsValid s → s.target_rank ≡ none
  sending-target s n v =
      Phase-sending s.target_rank (length s.outbox)
        (subst (λ b. Phase s.target_rank b (length s.outbox)) n v.phase)

  pub wait-accepted : (s : MessageBuffer A) → IsValid s → accepted (wait s) ≡ accepted s
  unfolding wait
  wait-accepted s v = elim (Bool-cases s.send_buffer_clear) [
    | inl y ↦ rw y refl
    | inr n ↦ rw (n, sending-target s n v) refl
  ]

  wait_if-IsValid :
      (b : Bool) (s : MessageBuffer A)
      → s.send_buffer_clear ≡ b
      → IsValid s
      → let waited = if b then s else record s { outbox = []; send_buffer_clear = true } in
        IsValid waited × (waited.send_buffer_clear ≡ true) × (waited.target_rank ≡ s.target_rank)
  wait_if-IsValid true s e v = (v, e, refl)
  wait_if-IsValid false s e v = (
    record {
      phase = Phase-cleared s.target_rank (sending-target s e v);
      fits = v.fits;
      counted = v.counted;
    },
    refl,
    refl,
  )

  pub wait-IsValid :
      (s : MessageBuffer A)
      → IsValid s
      → IsValid (wait s)
        × ((wait s).send_buffer_clear ≡ true)
        × ((wait s).target_rank ≡ s.target_rank)
  unfolding wait
  wait-IsValid s v = wait_if-IsValid s.send_buffer_clear s refl v

  -- A buffer whose outbox has room and is meant for nobody else.
  record Ready (target : ℕ) (s : MessageBuffer A) : Type 0 where
    valid : IsValid s
    clear : s.send_buffer_clear ≡ true
    room : length s.outbox < max_message_length
    meant : (s.target_rank ≡ none) ⊎ (s.target_rank ≡ some target)

  idle-empty :
      (s : MessageBuffer A)
      → s.send_buffer_clear ≡ true
      → s.target_rank ≡ none
      → IsValid s
      → length s.outbox ≡ 0
  idle-empty s c e v = Phase-idle (length s.outbox) (
      subst (λ r. Phase r true (length s.outbox)) e
        (subst (λ b. Phase s.target_rank b (length s.outbox)) c v.phase))

  empty_list : (xs : List (MessageBufferEntry A)) → length xs ≡ 0 → xs ≡ []
  empty_list [] e = refl
  empty_list (x ∷ xs) e = absurd (omega arith)

  wait-room :
      (s : MessageBuffer A)
      → length s.outbox < max_message_length
      → length (wait s).outbox < max_message_length
  unfolding wait
  wait-room s h = elim (Bool-cases s.send_buffer_clear) [
    | inl y ↦ rw y h
    | inr n ↦ rw n (omega arith)
  ]

  prepare-accepted :
      (target : ℕ) (s : MessageBuffer A) → IsValid s → accepted (prepare target s) ≡ accepted s
  unfolding prepare flush
  prepare-accepted target s v =
      elim (Bool-cases
        (leb max_message_length (length s.outbox) || addressed_to_other s.target_rank target)) [
          | inl y ↦ rw y (
              wait-accepted (flush_to s.target_rank s) (flush_to-IsValid s.target_rank s refl v).0
              ∙ flush_to-accepted s.target_rank s refl)
          | inr n ↦ rw n (wait-accepted s v)
        ]

  Ready-after_wait :
      (target : ℕ) (s : MessageBuffer A)
      → IsValid s
      → ((s.target_rank ≡ none)
          ⊎ ((s.target_rank ≡ some target) × (length s.outbox < max_message_length)))
      → Ready target (wait s)
  Ready-after_wait target s v m =
      let (w, c, k) = wait-IsValid s v in
      elim m [
        | inl e ↦ record {
          valid = w;
          clear = c;
          room = omega (arith, idle-empty (wait s) c (k ∙ e) w);
          meant = inl (k ∙ e);
        }
        | inr (e, l) ↦ record { valid = w; clear = c; room = wait-room s l; meant = inr (k ∙ e) }
      ]

  prepare-Ready : (target : ℕ) (s : MessageBuffer A) → IsValid s → Ready target (prepare target s)
  unfolding prepare flush
  prepare-Ready target s v =
      elim (Bool-cases
        (leb max_message_length (length s.outbox) || addressed_to_other s.target_rank target)) [
          | inl y ↦ rw y (
              let (f, e) = flush_to-IsValid s.target_rank s refl v in
              Ready-after_wait target (flush_to s.target_rank s) f (inl e))
          | inr n ↦ rw n (
              Ready-after_wait target s v (elim (meant_for s.target_rank target (ground arith)) [
                | inl e ↦ inl e
                | inr e ↦ inr (e, ground arith)
              ]))
        ]

  -- The outbox of a ready buffer holds the pending entries, and nothing else.
  pending-outbox :
      (target : ℕ) (s : MessageBuffer A)
      → Ready target s
      → pending_for s.target_rank s.outbox ≡ addressed target s.outbox
  pending-outbox target s r = elim r.meant [
    | inl e ↦ rw (e, empty_list s.outbox (idle-empty s r.clear e r.valid)) refl
    | inr e ↦ rw e refl
  ]

  stored_in : ℕ → MessageBufferEntry A → MessageBuffer A → MessageBuffer A
  stored_in target x s = record s { target_rank = some target; outbox = s.outbox ++ x ∷ [] }

  stored-accepted :
      (target : ℕ) (x : MessageBufferEntry A) (s : MessageBuffer A)
      → Ready target s
      → accepted (stored_in target x s) ≡ accepted s ++ (target, x) ∷ []
  unfolding stored_in
  stored-accepted target x s r = rw (pending-outbox target s r, addressed-append, append_assoc) refl

  stored-IsValid :
      (target : ℕ) (x : MessageBufferEntry A) (s : MessageBuffer A)
      → Ready target s
      → IsValid (stored_in target x s)
  unfolding stored_in
  stored-IsValid target x s r = record {
    phase = rw r.clear (
      omega (arith, length-append s.outbox (x ∷ [])),
      omega (arith, r.room, length-append s.outbox (x ∷ [])),
    );
    fits = r.valid.fits;
    counted = r.valid.counted;
  }

  store-lem :
      (target i : ℕ) (x : A) (s : MessageBuffer A)
      → Ready target s
      → IsValid (store target i x s)
        × (accepted (store target i x s)
            ≡ accepted s ++ (target, record { index = i; value = x }) ∷ [])
  unfolding store flush stored_in
  store-lem target i x s r =
      let v = stored-IsValid target (record { index = i; value = x }) s r in
      let a = stored-accepted target (record { index = i; value = x }) s r in
      elim (Bool-cases
        (leb max_message_length (length (s.outbox ++ record { index = i; value = x } ∷ [])))) [
          | inl y ↦
              let f =
                (flush_to-IsValid (some target)
                  (stored_in target (record { index = i; value = x }) s) refl v).0 in
              rw y (
                record { phase = f.phase; fits = f.fits; counted = f.counted },
                flush_to-accepted (some target)
                      (stored_in target (record { index = i; value = x }) s) refl
                    ∙ a,
              )
          | inr n ↦ rw n (record { phase = v.phase; fits = v.fits; counted = v.counted }, a)
        ]

  -- In a valid message buffer storing an entry for a rank never fails: the buffer stays valid, and
  -- the entry, for that rank, stands behind all that has been put before.
  pub put-accepted :
      (target i : ℕ) (x : A) (s : MessageBuffer A)
      → IsValid s
      → (s' : MessageBuffer A) × (put target i x s ≡ some s')
        × IsValid s'
        × (accepted s' ≡ accepted s ++ (target, record { index = i; value = x }) ∷ [])
  unfolding put
  put-accepted target i x s v =
      let r = prepare-Ready target s v in
      let (w, a) = store-lem target i x (prepare target s) r in
      let room : ltb (length (prepare target s).outbox) (suc max_message_length) ≡ true =
        ground (arith, r.room) in
      (
        store target i x (prepare target s),
        rw room refl,
        w,
        a
            ∙ ap (λ l. l ++ (target, record { index = i; value = x }) ∷ [])
                (prepare-accepted target s v),
      )

pub fresh-IsValid {ℓ} :
    {A : Type ℓ} (default_value : A) (entry_bytes : ℕ) → IsValid (fresh default_value entry_bytes)
unfolding fresh
fresh-IsValid default_value entry_bytes = record { phase = refl; fits = tt; counted = refl }
