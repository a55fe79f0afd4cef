-- ===== src/Flatten/Messages.antt =====
-- A flattened buffer gives every message back.
use mping.Prelude.{
  ℕ, suc, ◌+◌, ◌-◌, ◌≡◌, List, length, sum, exclusive_scan, length-exclusive_scan,
  last-exclusive_scan, arith,
}
use mping.Flatten.{back}

pub back-sum :
    (n : ℕ) (xs : List ℕ) → length xs ≡ suc n → back (exclusive_scan 0 xs) + back xs ≡ sum xs
back-sum n xs e =
    let at_scan : length (exclusive_scan 0 xs) - 1 ≡ n =
      omega (arith, length-exclusive_scan 0 xs) in
    let at_end : length xs - 1 ≡ n = omega arith in
    rw (at_scan, at_end) (omega (arith, last-exclusive_scan 0 xs n e))
