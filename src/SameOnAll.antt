-- ===== src/SameOnAll.antt =====
-- include/__mping/comm_helper/is_same_on_all_ranks.hpp: the reduction by which the ranks find out whether
-- they have all passed the same value. `MPI_Allreduce` is a parameter.
pub mod Agreement
mod Tests
use mping.Prelude.{ℕ, ◌<◌, ◌≡◌, ◌⊎◌, Bool, true, false, ◌&&◌, if◌then◌else◌}

pub record ValueEqual {ℓ} (A : Type ℓ) : Type ℓ where
  pub value : A
  pub equal : Bool

-- An order in which a reduction combines what the ranks contribute.
pub data Order : Type 0 where
  rank : ℕ → Order
  both : Order → Order → Order

abbrev pub Occurs : ℕ → Order → Type 0
Occurs r (rank j) = r ≡ j
Occurs r (both a b) = Occurs r a ⊎ Occurs r b

-- Each rank of a communicator contributes, and nobody else.
pub record Covers (p : ℕ) (t : Order) : Type 0 where
  pub all : (r : ℕ) → r < p → Occurs r t
  pub only : (r : ℕ) → Occurs r t → r < p

abbrev pub reduced {ℓ} : {A : Type ℓ} → (A → A → A) → (ℕ → A) → Order → A
reduced op values (rank r) = values r
reduced op values (both a b) = op (reduced op values a) (reduced op values b)

abbrev pub MpiAllreduce {ℓ} : Type ℓ → Type ℓ
MpiAllreduce A = (A → A → A) → (ℕ → A) → A

-- What MPI documents of a commutative operation: it combines what the ranks contribute, in any order.
abbrev pub Reduces {ℓ} : {A : Type ℓ} → ℕ → MpiAllreduce A → Type ℓ
Reduces {A} p mpi =
    (op : A → A → A) (values : ℕ → A)
    → (t : Order) × Covers p t × (mpi op values ≡ reduced op values t)

module _ {ℓ} {A : Type ℓ} (eq : A → A → Bool) where
  pub combine : ValueEqual A → ValueEqual A → ValueEqual A
  combine a b =
      if a.equal && (b.equal && eq a.value b.value)
      then record { value = a.value; equal = true }
      else record { value = a.value; equal = false }

  pub is_same_on_all_ranks : MpiAllreduce (ValueEqual A) → (ℕ → A) → Bool
  is_same_on_all_ranks mpi values =
      (mpi combine (λ r. record { value = values r; equal = true })).equal
