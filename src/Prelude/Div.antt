-- ===== src/Prelude/Div.antt =====
-- Quotient and remainder from a decomposition.
use Prim.Native.Nat.{ℕ, ◌+◌, ◌*◌, ◌/◌, ◌%◌, ◌<◌}
use mathlib.Core.Path.{◌≡◌, ◌∙◌}
use native.Mathlib.Nat.{mul-add-mod_self_right, mod-eq_of_lt, mul-add-div_right, div-eq_of_lt}
use native.Mathlib.Omega.{arith}

pub mod-of : (x m k r : ℕ) → x ≡ k * m + r → r < m → x % m ≡ r
mod-of x m k r e h = rw e (mul-add-mod_self_right k m r ∙ mod-eq_of_lt h)

pub div-of : (x m k r : ℕ) → x ≡ k * m + r → r < m → x / m ≡ k
div-of x m k r e h =
    rw (e, mul-add-div_right {m = m} (omega arith) k r, div-eq_of_lt {n = r} {m = m} h)
      (omega arith)
