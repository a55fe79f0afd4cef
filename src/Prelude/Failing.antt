-- ===== src/Prelude/Failing.antt =====
-- Calls that can fail, as options: `none` is a failed assertion, a thrown exception or undefined
-- behaviour, after which the program makes no further step.
use mathlib.Core.Bool.{Bool, true, false}
use mathlib.Core.Option.{Option, none, some}

infixl 5 ◌>>=◌ ◌>>◌
abbrev pub ◌>>=◌ {ℓ κ} : {A : Type ℓ} {B : Type κ} → Option A → (A → Option B) → Option B
none >>= f = none
some a >>= f = f a

abbrev pub ◌>>◌ {ℓ} : {B : Type ℓ} → Option (Unit {0}) → Option B → Option B
m >> k = m >>= λ _. k

-- `KASSERT(test)` and `THROWING_KASSERT(test)`.
abbrev pub kassert : Bool → Option (Unit {0})
kassert true = some tt
kassert false = none
