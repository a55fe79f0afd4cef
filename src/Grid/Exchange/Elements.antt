-- ===== src/Grid/Exchange/Elements.antt =====
-- The elements that a rank sends: where they come from, where they go, and those for one destination.
use mping.Prelude.{
  subst, ℕ, zero, suc, ◌+◌, ◌<◌, ◌≤◌, ◌≡◌, ◌≢◌, refl, ap, ap₂, ◌∙◌, List, [], ◌∷◌, ◌++◌, map,
  length, get_or, arith,
}
use mathlib.Core.List.{append-nil}
use mping.Blocks.{slice}
use mping.Buckets.{bucket}
use mping.Buckets.Filter.{
  Each, Each-append, Each-map, Each-mono, bucket-append, bucket-all, bucket-none,
}
use mping.Grid.Exchange.{Envelope, sent}

abbrev pub enveloped {ℓ} : {A : Type ℓ} → ℕ → ℕ → A → Envelope A
enveloped s d x = record { source = s; destination = d; payload = x }

module _ {ℓ} {A : Type ℓ} (rank : ℕ) (send_buf : List A) where
  always {κ} : {P : Type κ} → P → (xs : List A) → Each (λ x. P) xs
  always p [] = tt
  always p (x ∷ xs) = (p, always p xs)

  -- Each element has the source, and a destination from `i` on that has a count.
  abbrev pub IsSent : ℕ → ℕ → Envelope A → Type 0
  IsSent i n e = (e.source ≡ rank) × (i ≤ e.destination) × (e.destination < n)

  pub sent-Each :
      (i n : ℕ) (counts displs : List ℕ)
      → i + length counts ≤ n
      → Each (IsSent i n) (sent rank i send_buf counts displs)
  sent-Each i n [] displs h = tt
  sent-Each i n (c ∷ counts) [] h = tt
  sent-Each i n (c ∷ counts) (d ∷ displs) h =
      Each-append (IsSent i n) (map (enveloped rank i) (slice send_buf d c))
        (sent rank (suc i) send_buf counts displs)
        (Each-map (IsSent i n) (enveloped rank i) (slice send_buf d c)
          (always (refl, omega arith, omega arith) (slice send_buf d c)))
        (Each-mono (IsSent (suc i) n) (IsSent i n) (λ e s. (s.0, omega arith, s.2))
          (sent rank (suc i) send_buf counts displs)
          (sent-Each (suc i) n counts displs (omega arith)))

  -- The elements for a destination are its message.
  pub sent-message :
      (i d : ℕ) (counts displs : List ℕ)
      → d < length counts
      → length displs ≡ length counts
      → bucket (λ e. e.destination) (i + d) (sent rank i send_buf counts displs)
        ≡ map (enveloped rank (i + d)) (slice send_buf (get_or displs d 0) (get_or counts d 0))
  sent-message i d [] displs l e = absurd (omega arith)
  sent-message i d (c ∷ counts) [] l e = absurd (omega arith)
  sent-message i zero (c ∷ counts) (x ∷ displs) l e =
      bucket-append (λ e. e.destination) (i + 0) (map (enveloped rank i) (slice send_buf x c))
        (sent rank (suc i) send_buf counts displs)
      ∙ ap₂ ◌++◌
          (bucket-all (λ e. e.destination) (i + 0) (map (enveloped rank i) (slice send_buf x c))
            (Each-map (λ e. e.destination ≡ i + 0) (enveloped rank i) (slice send_buf x c)
              (always (omega arith) (slice send_buf x c))))
          (bucket-none (λ e. e.destination) (i + 0) (sent rank (suc i) send_buf counts displs)
            (Each-mono (IsSent (suc i) (suc i + length counts)) (λ e. e.destination ≢ i + 0)
              (λ e s. omega (arith, s)) (sent rank (suc i) send_buf counts displs)
              (sent-Each (suc i) (suc i + length counts) counts displs (omega arith))))
      ∙ append-nil (map (enveloped rank i) (slice send_buf x c))
      ∙ (let e' : i ≡ i + 0 = omega arith in
          ap (λ j. map (enveloped rank j) (slice send_buf x c)) e')
  sent-message i (suc d) (c ∷ counts) (x ∷ displs) l e =
      bucket-append (λ e. e.destination) (i + suc d) (map (enveloped rank i) (slice send_buf x c))
        (sent rank (suc i) send_buf counts displs)
      ∙ ap
          (λ b.
            b ++ bucket (λ e. e.destination) (i + suc d) (sent rank (suc i) send_buf counts displs))
          (bucket-none (λ e. e.destination) (i + suc d)
            (map (enveloped rank i) (slice send_buf x c))
            (Each-map (λ e. e.destination ≢ i + suc d) (enveloped rank i) (slice send_buf x c)
              (always (omega arith) (slice send_buf x c))))
      ∙ (let e' : suc i + d ≡ i + suc d = omega arith in
          subst
            (λ j.
              bucket (λ e. e.destination) j (sent rank (suc i) send_buf counts displs)
              ≡ map (enveloped rank j) (slice send_buf (get_or displs d 0) (get_or counts d 0)))
            e' (sent-message (suc i) d counts displs (omega arith) (omega arith)))
