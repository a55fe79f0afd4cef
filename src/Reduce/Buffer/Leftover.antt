-- ===== src/Reduce/Buffer/Leftover.antt =====
-- What a receive leaves in `_buffer`: the entries of a longer message stay behind a shorter one, and go to
-- the inbox again.
use mathlib.Core.List.{append_assoc, append-nil}
use mping.Prelude.{
  ℕ, zero, suc, ◌+◌, ◌-◌, ◌*◌, ◌≤◌, ◌≡◌, refl, ap, sym, ◌∙◌, inl, inr, false, List, [], ◌∷◌, ◌++◌,
  Option, some, length, length-append, take, drop, replicate, ◌==◌, ==_refl, Bool-cases, arith,
}
use mping.Blocks.{resize}
use mping.Reduce.Buffer.{
  MessageBufferEntry, MessageBuffer, fresh, receive, received, get, find, assign, assign_all, erase,
  max_message_length,
}

module _ {ℓ} {A : Type ℓ} where
  -- No entry has the index.
  abbrev pub Absent : ℕ → List (MessageBufferEntry A) → Type 0
  Absent i [] = Unit
  Absent i (e ∷ entries) = (e.index ≡ i → ⊥) × Absent i entries

  find-assign :
      (i : ℕ) (v : A) (inbox : List (MessageBufferEntry A)) → find i (assign i v inbox) ≡ some v
  find-assign i v [] = rw (==_refl i) refl
  find-assign i v (e ∷ inbox) = elim (Bool-cases (e.index == i)) [
    | inl y ↦ rw (y, ==_refl i) refl
    | inr n ↦ rw (n, n) (find-assign i v inbox)
  ]

  find-assign_other :
      (i j : ℕ) (v : A) (inbox : List (MessageBufferEntry A))
      → (j ≡ i → ⊥)
      → find i (assign j v inbox) ≡ find i inbox
  find-assign_other i j v [] n = let e : (j == i) ≡ false = ground arith in rw e refl
  find-assign_other i j v (e ∷ inbox) n = elim (Bool-cases (e.index == j)) [
    | inl y ↦
        let o : (j == i) ≡ false = ground arith in
        let p : (e.index == i) ≡ false = ground arith in rw (y, o, p) refl
    | inr m ↦ rw m (ground (arith, find-assign_other i j v inbox n))
  ]

  find-assign_all-Absent :
      (i : ℕ) (entries inbox : List (MessageBufferEntry A))
      → Absent i entries
      → find i (assign_all entries inbox) ≡ find i inbox
  find-assign_all-Absent i [] inbox a = refl
  find-assign_all-Absent i (e ∷ entries) inbox a =
      find-assign_all-Absent i entries _ a.1 ∙ find-assign_other i e.index e.value inbox a.0

  -- The last entry of an index counts.
  find-assign_all-last :
      (xs rest inbox : List (MessageBufferEntry A)) (e : MessageBufferEntry A)
      → Absent e.index rest
      → find e.index (assign_all (xs ++ e ∷ rest) inbox) ≡ some e.value
  find-assign_all-last [] rest inbox e a =
      find-assign_all-Absent e.index rest _ a ∙ find-assign e.index e.value inbox
  find-assign_all-last (x ∷ xs) rest inbox e a = find-assign_all-last xs rest _ e a

  take-all : (xs : List (MessageBufferEntry A)) (n : ℕ) → length xs ≡ n → take n xs ≡ xs
  take-all [] zero e = refl
  take-all [] (suc n) e = refl
  take-all (x ∷ xs) zero e = absurd (omega (arith, e))
  take-all (x ∷ xs) (suc n) e = ap (λ l. x ∷ l) (take-all xs n (omega (arith, e)))

  take-nil : (n : ℕ) → take {A = MessageBufferEntry A} n [] ≡ []
  take-nil zero = refl
  take-nil (suc n) = refl

  drop-front :
      (n : ℕ) (xs ys : List (MessageBufferEntry A))
      → n ≤ length xs
      → drop n (xs ++ ys) ≡ drop n xs ++ ys
  drop-front zero xs ys h = refl
  drop-front (suc n) [] ys h = absurd (omega arith)
  drop-front (suc n) (x ∷ xs) ys h = drop-front n xs ys (omega arith)

  resize-same :
      (blank : MessageBufferEntry A) (n : ℕ) (xs : List (MessageBufferEntry A))
      → length xs ≡ n
      → resize blank n xs ≡ xs
  resize-same blank n xs e =
      let none_new : n - length xs ≡ 0 = omega (arith, e) in
      rw (none_new, take-all xs n e) (append-nil xs)

  length-drop-replicate :
      (k n : ℕ) (x : MessageBufferEntry A) → length (drop k (replicate n x)) ≡ n - k
  length-drop-replicate zero zero x = refl
  length-drop-replicate zero (suc n) x = omega (arith, ap suc (length-drop-replicate zero n x))
  length-drop-replicate (suc k) zero x = omega arith
  length-drop-replicate (suc k) (suc n) x = omega (arith, length-drop-replicate k n x)

  Absent-drop-replicate :
      (k n : ℕ) (x : MessageBufferEntry A) (i : ℕ)
      → (x.index ≡ i → ⊥)
      → Absent i (drop k (replicate n x))
  Absent-drop-replicate zero zero x i h = tt
  Absent-drop-replicate zero (suc n) x i h = (h, Absent-drop-replicate zero n x i h)
  Absent-drop-replicate (suc k) zero x i h = tt
  Absent-drop-replicate (suc k) (suc n) x i h = Absent-drop-replicate k n x i h

  Absent-append :
      (i : ℕ) (xs ys : List (MessageBufferEntry A))
      → Absent i xs
      → Absent i ys
      → Absent i (xs ++ ys)
  Absent-append i [] ys a b = b
  Absent-append i (x ∷ xs) ys a b = (a.0, Absent-append i xs ys a.1 b)

  -- What is in `_buffer` behind the end of the next message is entered into the inbox once more.
  get-behind :
      (old rest message : List (MessageBufferEntry A)) (e : MessageBufferEntry A)
      (s : MessageBuffer A) (recv : ℕ → Option (List (MessageBufferEntry A))) (source : ℕ)
      → s.buffer ≡ old ++ e ∷ rest
      → length s.buffer ≡ max_message_length * s.entry_bytes
      → length message ≤ length old
      → Absent e.index rest
      → (s' : MessageBuffer A) × (get recv source e.index (receive message s) ≡ some (e.value, s'))
  unfolding get receive
  get-behind old rest message e s recv source holds full short absent =
      let blank : MessageBufferEntry A = record { index = 0; value = s.default_value } in
      let left = message ++ drop (length message) old in
      let enough : 0 + length message ≤ length old = omega arith in
      let same : received message s ≡ left ++ e ∷ rest =
        ap (λ l. message ++ drop (0 + length message) l)
          (resize-same blank (max_message_length * s.entry_bytes) s.buffer full ∙ holds)
        ∙ ap (λ l. message ++ l) (drop-front (0 + length message) old (e ∷ rest) enough)
        ∙ ap (λ k. message ++ (drop k old ++ e ∷ rest)) (omega arith)
        ∙ sym (append_assoc message (drop (length message) old) (e ∷ rest)) in
      let found : find e.index (assign_all (received message s) s.inbox) ≡ some e.value =
        ap (λ l. find e.index (assign_all l s.inbox)) same
        ∙ find-assign_all-last left rest s.inbox e absent in
      let informed = receive message s in
      (record informed { inbox = erase e.index informed.inbox }, rw found refl)

  -- If the first message that a new message buffer receives fits into what the receive offers and
  -- has an entry of another index than 0, with no entry of that index behind it, and a second
  -- message ends before the place of this entry, then after the second receive, whatever was taken
  -- from the inbox before, a `get` of the index gives the value of the first message at once,
  -- whatever a further receive would bring.
  pub get-leftover :
      (default_value : A) (entry_bytes : ℕ) (old later second : List (MessageBufferEntry A))
      (e : MessageBufferEntry A) (s : MessageBuffer A)
      (recv : ℕ → Option (List (MessageBufferEntry A))) (source : ℕ)
      → length (old ++ e ∷ later) ≤ max_message_length * entry_bytes
      → (e.index ≡ 0 → ⊥)
      → Absent e.index later
      → s.buffer ≡ (receive (old ++ e ∷ later) (fresh default_value entry_bytes)).buffer
      → s.entry_bytes ≡ entry_bytes
      → length second ≤ length old
      → (s' : MessageBuffer A) × (get recv source e.index (receive second s) ≡ some (e.value, s'))
  unfolding receive fresh
  get-leftover default_value entry_bytes old later second e s recv source room inner absent same
        bytes short =
      let n = max_message_length * entry_bytes in
      let blank : MessageBufferEntry A = record { index = 0; value = default_value } in
      let first = old ++ e ∷ later in
      let new = drop (length first) (replicate n blank) in
      let resized : resize blank n [] ≡ replicate n blank =
        ap (λ l. l ++ replicate (n - 0) blank) (take-nil n)
        ∙ ap (λ k. replicate k blank) (omega arith) in
      let holds : s.buffer ≡ first ++ new =
        same
        ∙ ap (λ l. first ++ drop (0 + length first) l) resized
        ∙ ap (λ k. first ++ drop k (replicate n blank)) (omega arith) in
      let full : length s.buffer ≡ max_message_length * s.entry_bytes =
        ap length holds
        ∙ length-append first new
        ∙ omega (arith, length-drop-replicate (length first) n blank, room, bytes) in
      get-behind old (later ++ new) second e s recv source
        (holds ∙ append_assoc old (e ∷ later) new) full short
        (Absent-append e.index later new absent
          (Absent-drop-replicate (length first) n blank e.index (λ z. inner (sym z))))
