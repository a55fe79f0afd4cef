-- ===== src/Collectives/Buffers.antt =====
-- Parameters for counts and displacements after they are computed, and checks over all ranks.
use mathlib.Core.List.{append-nil}
use mping.Prelude.{
  ltb, take-all, ◌-◌, false, sym, ℕ_discrete, ℕ, zero, suc, ◌+◌, ◌<◌, ◌≡◌, refl, ap, ◌∙◌, Bool,
  true, List, ◌++◌, length, drop-all, arith,
}
use mping.Blocks.{resize, write_at}
use mping.Blocks.Scan.{length-resize}
use mping.Collectives.{
  BufferResizePolicy, no_resize, grow_only, resize_if_requested, resize_to_fit, out, sized, filled,
  all_below, same_on_all,
}

-- Values that fill the whole buffer are its contents.
pub write_at-whole {ℓ} :
    {A : Type ℓ} (values buffer : List A)
    → length buffer ≡ length values
    → write_at 0 values buffer ≡ values
write_at-whole values buffer e =
    ap (λ r. values ++ r) (drop-all buffer (0 + length values) (omega arith)) ∙ append-nil values

-- A computed parameter that may be resized to fit holds the computed values.
pub filled-resized :
    (p : ℕ) (xs computed : List ℕ)
    → length computed ≡ p
    → filled p (out resize_to_fit xs) computed ≡ computed
filled-resized p xs computed e =
    write_at-whole computed (resize 0 p xs) (omega (arith, length-resize 0 p xs))

pub length-sized : (p : ℕ) (xs : List ℕ) → length (sized p (out resize_to_fit xs)) ≡ p
length-sized p xs = length-resize 0 p xs

pub all_below-true : (p : ℕ) (f : ℕ → Bool) → ((r : ℕ) → r < p → f r ≡ true) → all_below p f ≡ true
all_below-true zero f h = refl
all_below-true (suc p) f h =
    ground (arith, h p (omega arith), all_below-true p f (λ r l. h r (omega arith)))

pub all_below-each : (p : ℕ) (f : ℕ → Bool) → all_below p f ≡ true → (r : ℕ) → r < p → f r ≡ true
all_below-each zero f h r l = absurd (omega arith)
all_below-each (suc p) f h r l = elim (ℕ_discrete r p) [
  | yes e ↦ rw e (ground (arith, h))
  | no other ↦ all_below-each p f (ground (arith, h)) r (omega arith)
]

pub same_on_all-const : (p : ℕ) (f : ℕ → Bool) → ((r : ℕ) → f r ≡ true) → same_on_all p f ≡ true
same_on_all-const p f h = all_below-true p _ (λ r l. ground (arith, h 0, h r))

pub all_below-false : (p : ℕ) (f : ℕ → Bool) (i : ℕ) → i < p → f i ≡ false → all_below p f ≡ false
all_below-false zero f i l h = absurd (omega arith)
all_below-false (suc p) f i l h = elim (ℕ_discrete i p) [
  | yes e ↦ rw (sym (ap f e) ∙ h) refl
  | no other ↦ ground (arith, all_below-false p f i (omega arith) h)
]

-- A buffer of the requested size is left as it is, under every policy.
pub resize_if_requested-same {ℓ} :
    {A : Type ℓ} (policy : BufferResizePolicy) (blank : A) (n : ℕ) (xs : List A)
    → length xs ≡ n
    → resize_if_requested policy blank n xs ≡ xs
resize_if_requested-same no_resize blank n xs e = refl
resize_if_requested-same grow_only blank n xs e =
    let enough : ltb (length xs) n ≡ false = ground arith in rw enough refl
resize_if_requested-same resize_to_fit blank n xs e =
    let none_missing : n - length xs ≡ 0 = omega arith in
    rw (take-all xs n (omega arith), none_missing) (append-nil xs)
