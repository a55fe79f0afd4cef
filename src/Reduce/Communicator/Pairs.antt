-- ===== src/Reduce/Communicator/Pairs.antt =====
-- The loop over pairs, which may read from the buffer that it writes.
use mping.Prelude.{
  ℕ, zero, suc, ◌+◌, ◌*◌, ◌≤◌, ◌<◌, ◌≡◌, refl, ◌∙◌, List, Option, none, some, length, length-set,
  get_elem?, get_elem?-set_self, get_elem?-set_ne, set, lt→ltb, ℕ_discrete, arith,
}
use mping.Reduce.Communicator.{source_at, write, pair_loop}

module _ {ℓ} {A : Type ℓ} where
  -- The source has the values of `val` at the positions from `first` on and below `elements`.
  abbrev pub Reads : Option (List A) → List A → ℕ → ℕ → (ℕ → A) → Type ℓ
  Reads source dest first elements val =
      (i : ℕ) → first ≤ i → i < elements → source_at source dest i ≡ some (val i)

  -- A write below the positions that are read does not change what they have.
  pub Reads-set :
      (source : Option (List A)) (dest : List A) (first k elements : ℕ) (val : ℕ → A) (w : ℕ)
      (v : A)
      → Reads source dest first elements val
      → first ≤ k
      → w < k
      → Reads source (set dest w v) k elements val
  Reads-set none dest first k elements val w v h l below i le lt =
      get_elem?-set_ne dest v (λ e. omega arith) ∙ h i (omega arith) lt
  Reads-set (some buffer) dest first k elements val w v h l below i le lt = h i (omega arith) lt

  pub write-some :
      (dest : List A) (i : ℕ) (v : A) → i < length dest → write dest i v ≡ some (set dest i v)
  write-some dest i v h = rw (lt→ltb i (length dest) h) refl

module _ {ℓ} {A : Type ℓ} (op : A → A → A) where
  pub record Paired (source : Option (List A)) (dest : List A) (w n elements : ℕ) (val : ℕ → A)
      : Type ℓ where
    pub paired : List A
    pub computed : pair_loop op source n w dest ≡ some paired
    pub same_length : length paired ≡ length dest
    pub below : (i : ℕ) → i < w → get_elem? paired i ≡ get_elem? dest i
    pub written :
        (i : ℕ) → w ≤ i → i < w + n → get_elem? paired i ≡ some (op (val (2 * i)) (val (2 * i + 1)))
    pub reads : Reads source paired (2 * (w + n)) elements val

  pub pair_loop-Paired :
      (source : Option (List A)) (dest : List A) (w n elements : ℕ) (val : ℕ → A)
      → Reads source dest (2 * w) elements val
      → 2 * (w + n) ≤ elements
      → w + n ≤ length dest
      → Paired source dest w n elements val
  unfolding pair_loop
  pair_loop-Paired source dest w zero elements val h room fits = record {
    paired = dest;
    computed = refl;
    same_length = refl;
    below = λ i l. refl;
    written = λ i l m. absurd (omega arith);
    reads = λ i l m. h i (omega arith) m;
  }
  pair_loop-Paired source dest w (suc n) elements val h room fits =
      let v = op (val (2 * w)) (val (2 * w + 1)) in
      let dest' = set dest w v in
      let rest =
        pair_loop-Paired source dest' (suc w) n elements val
          (Reads-set source dest (2 * w) (2 * suc w) elements val w v h (omega arith) (omega arith))
          (omega arith) (omega (arith, length-set dest w v)) in
      let first = h (2 * w) (omega arith) (omega arith) in
      let second = h (2 * w + 1) (omega arith) (omega arith) in
      record {
        paired = rest.paired;
        computed = rw (first, second, write-some dest w v (omega arith)) rest.computed;
        same_length = rest.same_length ∙ length-set dest w v;
        below = λ i l. rest.below i (omega arith) ∙ get_elem?-set_ne dest v (λ e. omega arith);
        written = λ i l m. elim (ℕ_discrete i w) [
          | yes e ↦ rw e (rest.below w (omega arith) ∙ get_elem?-set_self dest w v (omega arith))
          | no other ↦ rest.written i (omega arith) (omega arith)
        ];
        reads = λ i l m. rest.reads i (omega arith) m;
      }
