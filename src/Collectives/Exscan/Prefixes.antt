-- ===== src/Collectives/Exscan/Prefixes.antt =====
-- Prefix reductions of the blocks of the ranks, element by element.
use mping.Prelude.{
  ℕ, zero, suc, ◌<◌, ◌≡◌, refl, ap, ap₂, sym, ◌∙◌, List, [], ◌∷◌, length, replicate, arith,
}
use mping.Collectives.Exscan.{zip_with, prefix}

module _ {ℓ} {A : Type ℓ} (op : A → A → A) where
  -- The reduction of the blocks before that of rank `r`, from the identity on.
  abbrev pub exclusive : A → ℕ → (ℕ → List A) → ℕ → List A
  exclusive e n blocks zero = replicate n e
  exclusive e n blocks (suc r) = zip_with op (exclusive e n blocks r) (blocks r)

  zip_with-identity :
      (e : A)
      → ((a : A) → op e a ≡ a)
      → (xs : List A) → zip_with op (replicate (length xs) e) xs ≡ xs
  zip_with-identity e unit [] = refl
  zip_with-identity e unit (x ∷ xs) = ap₂ ◌∷◌ (unit x) (zip_with-identity e unit xs)

  length-zip_with :
      (xs ys : List A) → length xs ≡ length ys → length (zip_with op xs ys) ≡ length ys
  length-zip_with [] ys h = h
  length-zip_with (x ∷ xs) [] h = refl
  length-zip_with (x ∷ xs) (y ∷ ys) h = ap suc (length-zip_with xs ys (omega arith))

  pub exclusive-prefix :
      (e : A)
      → ((a : A) → op e a ≡ a)
      → (n : ℕ) (blocks : ℕ → List A) → length (blocks 0) ≡ n
      → (r : ℕ) → exclusive e n blocks (suc r) ≡ prefix op blocks r
  exclusive-prefix e unit n blocks size zero =
      ap (λ m. zip_with op (replicate m e) (blocks 0)) (sym size)
      ∙ zip_with-identity e unit (blocks 0)
  exclusive-prefix e unit n blocks size (suc r) =
      ap (λ b. zip_with op b (blocks (suc r))) (exclusive-prefix e unit n blocks size r)

  pub length-prefix :
      (n p : ℕ) (blocks : ℕ → List A)
      → ((r : ℕ) → r < p → length (blocks r) ≡ n)
      → (r : ℕ) → r < p
      → length (prefix op blocks r) ≡ n
  length-prefix n p blocks each zero l = each 0 l
  length-prefix n p blocks each (suc r) l =
      length-zip_with (prefix op blocks r) (blocks (suc r))
        (length-prefix n p blocks each r (omega arith) ∙ sym (each (suc r) l))
      ∙ each (suc r) l

  pub prefix-ext :
      (p : ℕ) (f g : ℕ → List A)
      → ((r : ℕ) → r < p → f r ≡ g r)
      → (r : ℕ) → r < p
      → prefix op f r ≡ prefix op g r
  prefix-ext p f g same zero l = same 0 l
  prefix-ext p f g same (suc r) l =
      ap₂ (zip_with op) (prefix-ext p f g same r (omega arith)) (same (suc r) l)
