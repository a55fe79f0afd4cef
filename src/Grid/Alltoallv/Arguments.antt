-- ===== src/Grid/Alltoallv/Arguments.antt =====
-- The arguments of the grid's exchange where only the send buffers and counts are given.
use mping.Prelude.{
  ℕ, zero, suc, ◌+◌, ◌≤◌, ◌≡◌, refl, ap, ◌∙◌, true, List, [], ◌∷◌, ◌++◌, map, length, leb, take-all,
  sum, exclusive_scan, length-exclusive_scan, some, arith,
}
use mping.Blocks.{resize, concat, tabulate_from}
use mping.Blocks.Scan.{length-resize}
use mping.Collectives.{resize_to_fit, out}
use mping.Collectives.Buffers.{write_at-whole}
use mping.Grid.Exchange.Sent.{Inside}
use mping.Grid.Alltoallv.{Args, send_displs_of}

abbrev pub sending {ℓ} : {A : Type ℓ} → List A → List ℕ → Args A
sending send_buf send_counts = record {
  send_buf = send_buf;
  send_counts = send_counts;
  send_displs = out resize_to_fit [];
  recv_counts = out resize_to_fit [];
  recv_displs = out resize_to_fit [];
  recv_buf = [];
  recv_policy = resize_to_fit;
}

pub Inside-scan :
    (n acc : ℕ) (counts : List ℕ)
    → acc + sum counts ≤ n
    → Inside n counts (exclusive_scan acc counts)
Inside-scan n acc [] h = tt
Inside-scan n acc (c ∷ counts) h = (omega arith, Inside-scan n (acc + c) counts (omega arith))

pub send_displs_of-scan :
    (size : ℕ) (counts : List ℕ)
    → length counts ≡ size
    → send_displs_of size (out resize_to_fit []) counts ≡ some (exclusive_scan 0 counts)
send_displs_of-scan size counts e =
    let enough : leb size (length {A = ℕ} (resize 0 size [])) ≡ true =
      ground (arith, length-resize {A = ℕ} 0 size []) in
    rw (enough, take-all counts size (omega (arith, e)))
      (ap some (
        write_at-whole (exclusive_scan 0 counts) (resize 0 size [])
          (omega (arith, length-resize {A = ℕ} 0 size [], length-exclusive_scan 0 counts, e))))

map-append {ℓ κ} :
    {A : Type ℓ} {B : Type κ} (f : A → B) (xs ys : List A) → map f (xs ++ ys) ≡ map f xs ++ map f ys
map-append f [] ys = refl
map-append f (x ∷ xs) ys = ap (λ r. f x ∷ r) (map-append f xs ys)

pub map-concat {ℓ κ} :
    {A : Type ℓ} {B : Type κ} (f : A → B) (k n : ℕ) (g : ℕ → List A)
    → map f (concat (tabulate_from k n g)) ≡ concat (tabulate_from k n (λ j. map f (g j)))
map-concat f k zero g = refl
map-concat f k (suc n) g =
    map-append f (g k) (concat (tabulate_from (suc k) n g))
    ∙ ap (λ r. map f (g k) ++ r) (map-concat f (suc k) n g)
