-- ===== src/Flatten/Sent.antt =====
-- Messages for destinations, entered one after the other in a list of blocks.
use mping.Prelude.{
  subst, ℕ, zero, suc, ◌<◌, ◌≡◌, refl, ap, sym, ◌∙◌, List, [], ◌∷◌, length, get_or, set, arith,
}
use mping.Blocks.{lengths}
use mping.Blocks.Scan.{get_or-lengths, length-lengths}
use mping.Flatten.{sparse_counts}

module _ {ℓ} {A : Type ℓ} where
  abbrev pub set_all : List (ℕ × List A) → List (List A) → List (List A)
  set_all [] blocks = blocks
  set_all ((d, m) ∷ messages) blocks = set_all messages (set blocks d m)

  abbrev NotIn : ℕ → List (ℕ × List A) → Type 0
  NotIn d [] = Unit {0}
  NotIn d ((e, m) ∷ messages) = (d ≡ e → ⊥) × NotIn d messages

  -- No destination occurs twice.
  abbrev pub Distinct : List (ℕ × List A) → Type 0
  Distinct [] = Unit {0}
  Distinct ((d, m) ∷ messages) = NotIn d messages × Distinct messages

  abbrev pub Within : ℕ → List (ℕ × List A) → Type 0
  Within n [] = Unit {0}
  Within n ((d, m) ∷ messages) = (d < n) × Within n messages

  abbrev pub Matches : List (List A) → List (ℕ × List A) → Type ℓ
  Matches blocks [] = Unit
  Matches blocks ((d, m) ∷ messages) = (get_or blocks d [] ≡ m) × Matches blocks messages

  abbrev pub FitsIn : List ℕ → List (ℕ × List A) → Type 0
  FitsIn counts [] = Unit {0}
  FitsIn counts ((d, m) ∷ messages) =
      (d < length counts) × (length m ≡ get_or counts d 0) × FitsIn counts messages

  pub lengths-set :
      (blocks : List (List A)) (d : ℕ) (m : List A)
      → lengths (set blocks d m) ≡ set (lengths blocks) d (length m)
  lengths-set [] d m = refl
  lengths-set (b ∷ blocks) zero m = refl
  lengths-set (b ∷ blocks) (suc d) m = ap (λ l. length b ∷ l) (lengths-set blocks d m)

  length-set :
      (blocks : List (List A)) (d : ℕ) (m : List A) → length (set blocks d m) ≡ length blocks
  length-set [] d m = refl
  length-set (b ∷ blocks) zero m = refl
  length-set (b ∷ blocks) (suc d) m = ap suc (length-set blocks d m)

  get_or-set :
      (blocks : List (List A)) (d : ℕ) (m : List A)
      → d < length blocks
      → get_or (set blocks d m) d [] ≡ m
  get_or-set [] d m h = absurd (omega arith)
  get_or-set (b ∷ blocks) zero m h = refl
  get_or-set (b ∷ blocks) (suc d) m h = get_or-set blocks d m (omega arith)

  get_or-set_other :
      (blocks : List (List A)) (d e : ℕ) (m : List A)
      → (d ≡ e → ⊥)
      → get_or (set blocks e m) d [] ≡ get_or blocks d []
  get_or-set_other [] d e m h = refl
  get_or-set_other (b ∷ blocks) zero zero m h = absurd (h refl)
  get_or-set_other (b ∷ blocks) zero (suc e) m h = refl
  get_or-set_other (b ∷ blocks) (suc d) zero m h = refl
  get_or-set_other (b ∷ blocks) (suc d) (suc e) m h =
      get_or-set_other blocks d e m (λ q. h (ap suc q))

  get_or-set_all :
      (messages : List (ℕ × List A)) (blocks : List (List A)) (d : ℕ)
      → NotIn d messages
      → get_or (set_all messages blocks) d [] ≡ get_or blocks d []
  get_or-set_all [] blocks d h = refl
  get_or-set_all ((e, m) ∷ messages) blocks d h =
      get_or-set_all messages (set blocks e m) d h.1 ∙ get_or-set_other blocks d e m h.0

  pub set_all-Matches :
      (messages : List (ℕ × List A)) (blocks : List (List A))
      → Distinct messages
      → Within (length blocks) messages
      → Matches (set_all messages blocks) messages
  set_all-Matches [] blocks d w = tt
  set_all-Matches ((e, m) ∷ messages) blocks d w = (
    get_or-set_all messages (set blocks e m) e d.0 ∙ get_or-set blocks e m w.0,
    set_all-Matches messages (set blocks e m) d.1
        (subst (λ n. Within n messages) (sym (length-set blocks e m)) w.1),
  )

  pub sparse_counts-set_all :
      (messages : List (ℕ × List A)) (blocks : List (List A))
      → sparse_counts messages (lengths blocks) ≡ lengths (set_all messages blocks)
  sparse_counts-set_all [] blocks = refl
  sparse_counts-set_all ((d, m) ∷ messages) blocks =
      ap (sparse_counts messages) (sym (lengths-set blocks d m))
      ∙ sparse_counts-set_all messages (set blocks d m)

  pub length-set_all :
      (messages : List (ℕ × List A)) (blocks : List (List A))
      → length (set_all messages blocks) ≡ length blocks
  length-set_all [] blocks = refl
  length-set_all ((d, m) ∷ messages) blocks =
      length-set_all messages (set blocks d m) ∙ length-set blocks d m

  pub Matches-FitsIn :
      (messages : List (ℕ × List A)) (blocks : List (List A))
      → Within (length blocks) messages
      → Matches blocks messages
      → FitsIn (lengths blocks) messages
  Matches-FitsIn [] blocks w h = tt
  Matches-FitsIn ((d, m) ∷ messages) blocks w h = (
    omega (arith, length-lengths blocks, w.0),
    sym (get_or-lengths blocks d ∙ ap length h.0),
    Matches-FitsIn messages blocks w.1 h.1,
  )
