-- ===== src/Buckets/Layout.antt =====
-- A buffer seen as blocks that are partly filled, and the positions at which each block goes on.
use mping.Prelude.{
  ℕ, zero, suc, ◌+◌, ◌-◌, ◌<◌, ◌≡◌, refl, ap, ap₂, length-map, length-replicate, ◌∙◌, List, [], ◌∷◌,
  ◌++◌, map, get_or, set, length, length-append, replicate, arith,
}
use mathlib.Core.List.{append_assoc, map-append}
use mping.Buckets.{increment}

module _ {ℓ κ} {A : Type ℓ} {B : Type κ} (f : A → B) (blank : B) where
  -- Each block: what it holds already and how much room is left.
  abbrev pub flat : List (List A × ℕ) → List B
  flat [] = []
  flat ((filled, room) ∷ l) = map f filled ++ (replicate room blank ++ flat l)

module _ {ℓ} {A : Type ℓ} where
  abbrev pub positions : ℕ → List (List A × ℕ) → List ℕ
  positions base [] = []
  positions base ((filled, room) ∷ l) =
      (base + length filled) ∷ positions (base + length filled + room) l

  -- One more element in block `i`.
  abbrev pub push : List (List A × ℕ) → ℕ → A → List (List A × ℕ)
  push [] i x = []
  push ((filled, room) ∷ l) zero x = (filled ++ x ∷ [], room - 1) ∷ l
  push ((filled, room) ∷ l) (suc i) x = (filled, room) ∷ push l i x

  abbrev pub HasRoom : List (List A × ℕ) → ℕ → Type 0
  HasRoom [] i = ⊥
  HasRoom ((filled, room) ∷ l) zero = 0 < room
  HasRoom ((filled, room) ∷ l) (suc i) = HasRoom l i

  pub positions-push :
      (base : ℕ) (l : List (List A × ℕ)) (i : ℕ) (x : A)
      → HasRoom l i
      → positions base (push l i x) ≡ increment (positions base l) i
  positions-push base [] i x h = absurd h
  positions-push base ((filled, room) ∷ l) zero x h =
      ap₂ (λ a b. a ∷ positions b l) (omega (arith, length-append filled (x ∷ [])))
        (omega (arith, length-append filled (x ∷ [])))
  positions-push base ((filled, room) ∷ l) (suc i) x h =
      ap (λ r. (base + length filled) ∷ r) (positions-push (base + length filled + room) l i x h)

  -- The position of block `i` relative to the start of the buffer.
  offset : List (List A × ℕ) → ℕ → ℕ
  offset [] i = 0
  offset ((filled, room) ∷ l) zero = length filled
  offset ((filled, room) ∷ l) (suc i) = length filled + room + offset l i

  positions-offset :
      (base : ℕ) (l : List (List A × ℕ)) (i : ℕ)
      → HasRoom l i
      → get_or (positions base l) i 0 ≡ base + offset l i
  unfolding offset
  positions-offset base [] i h = absurd h
  positions-offset base ((filled, room) ∷ l) zero h = refl
  positions-offset base ((filled, room) ∷ l) (suc i) h =
      omega (arith, positions-offset (base + length filled + room) l i h)

module _ {ℓ} {B : Type ℓ} where
  -- A write behind a prefix goes to what stands behind it.
  pub set-append :
      (xs ys : List B) (j i : ℕ) (v : B) → j ≡ length xs + i → set (xs ++ ys) j v ≡ xs ++ set ys i v
  set-append [] ys j i v e = ap (λ k. set ys k v) (omega arith)
  set-append (x ∷ xs) ys zero i v e = absurd (omega arith)
  set-append (x ∷ xs) ys (suc j) i v e = ap (λ r. x ∷ r) (set-append xs ys j i v (omega arith))

module _ {ℓ κ} {A : Type ℓ} {B : Type κ} (f : A → B) (blank : B) where
  set-room :
      (filled : List A) (room : ℕ) (x : A) (ys : List B) (j : ℕ)
      → 0 < room
      → j ≡ length filled
      → set (map f filled ++ (replicate room blank ++ ys)) j (f x)
        ≡ map f (filled ++ x ∷ []) ++ (replicate (room - 1) blank ++ ys)
  set-room filled zero x ys j h e = absurd (omega arith)
  set-room filled (suc room) x ys j h e =
      set-append (map f filled) _ j 0 (f x) (omega (arith, length-map filled f))
      ∙ (let s : suc room - 1 ≡ room = omega arith in rw (s, map-append, append_assoc))

  -- The write at the position of a block with room fills one more place of that block.
  set-flat :
      (l : List (List A × ℕ)) (i : ℕ) (x : A)
      → HasRoom l i
      → set (flat f blank l) (offset l i) (f x) ≡ flat f blank (push l i x)
  unfolding offset
  set-flat [] i x h = absurd h
  set-flat ((filled, room) ∷ l) zero x h =
      set-room filled room x (flat f blank l) (length filled) h refl
  set-flat ((filled, room) ∷ l) (suc i) x h =
      set-append (map f filled) (replicate room blank ++ flat f blank l) _ (room + offset l i) (f x)
        (omega (arith, length-map filled f))
      ∙ ap (◌++◌ (map f filled)) (
          set-append (replicate room blank) (flat f blank l) _ (offset l i) (f x)
            (omega (arith, length-replicate room blank))
          ∙ ap (◌++◌ (replicate room blank)) (set-flat l i x h))

  pub set-position :
      (l : List (List A × ℕ)) (i : ℕ) (x : A)
      → HasRoom l i
      → set (flat f blank l) (get_or (positions 0 l) i 0) (f x) ≡ flat f blank (push l i x)
  set-position l i x h =
      rw (positions-offset 0 l i h)
        (ap (λ j. set (flat f blank l) j (f x)) (omega arith) ∙ set-flat l i x h)
