-- ===== src/Reduce/Communicator/Lone.antt =====
-- An array of one element.
use mping.Prelude.{ℕ, ◌≡◌, refl, List, Option, some, get_elem?}
use mping.Reduce.{tree_height, log2l}
use mping.Reduce.Buffer.{MessageBuffer, MessageBufferEntry}
use mping.Reduce.Communicator.{ReproducibleCommunicator, level_loop, perform_reduce_at}

tree_height-one : tree_height 1 ≡ 0
unfolding tree_height log2l
tree_height-one = refl

-- For an array of one element the reduction at index 0 makes no pass, and returns what its own
-- buffer had before, whatever the element is.
pub perform_reduce_at-lone {ℓ} :
    {A : Type ℓ} (op : A → A → A) (brings : ℕ → ℕ → Option (List (MessageBufferEntry A)))
    (c : ReproducibleCommunicator A) (buffer : List A) (s : MessageBuffer A) (stale : A)
    → c.global_size ≡ 1
    → c.region_begin ≡ 0
    → c.region_size ≡ 1
    → get_elem? c.reduce_buffer 0 ≡ some stale
    → perform_reduce_at op brings c 0 buffer s ≡ some (stale, s)
unfolding perform_reduce_at level_loop
perform_reduce_at-lone op brings c buffer s stale one first local old =
    rw (one, first, local, tree_height-one, old) refl
