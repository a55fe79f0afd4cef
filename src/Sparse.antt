-- ===== src/Sparse.antt =====
-- include/__mping/plugin/alltoall_sparse.hpp: `alltoallv_sparse` on all ranks together, as steps of single
-- ranks in any order. A rank stands where its last step left it; a message is in flight from its
-- synchronous send until the callback of its destination receives it. What MPI's calls return is free
-- within what its standard documents: the premises of the steps.
pub mod Invariant
pub mod Delivery
pub mod Turns
pub mod Progress
mod Tests
use mping.Prelude.{
  ℕ, zero, suc, ◌+◌, ◌^◌, ◌<◌, ◌≡◌, ◌==◌, ◌&&◌, Bool, true, false, if◌then◌else◌, List, [], ◌∷◌,
  ◌++◌, length, update, count_if,
}

-- A destination and a message, as in the sparse send buffer.
abbrev pub Messages {ℓ} : Type ℓ → Type ℓ
Messages A = List (ℕ × List A)

pub record SentMessage {ℓ} (A : Type ℓ) : Type ℓ where
  pub source : ℕ
  pub destination : ℕ
  pub message : List A

pub data Pc {ℓ} (A : Type ℓ) : Type ℓ where
  sending : Messages A → Pc A  -- the messages that the loop over the send buffer has left
  probing : Bool → Pc A  -- before `iprobe`; the flag is `!barrier_request.is_null()`
  testing : Bool → Pc A  -- behind `iprobe`, before the test of the barrier or of the pool
  leaving : Pc A  -- behind the loop, in `barrier`
  returned : Pc A

pub record System {ℓ} (A : Type ℓ) : Type ℓ where
  pub pc : ℕ → Pc A
  pub in_flight : List (SentMessage A)
  pub received : List (SentMessage A)  -- the messages that callbacks have received, in order

module _ {ℓ} {A : Type ℓ} where
  -- The rank has called `ibarrier`.
  abbrev pub entered : Pc A → Bool
  entered (sending messages) = false
  entered (probing barrier) = barrier
  entered (testing barrier) = barrier
  entered leaving = true
  entered returned = true

  -- The rank has called `barrier`.
  abbrev pub exited : Pc A → Bool
  exited (sending messages) = false
  exited (probing barrier) = false
  exited (testing barrier) = false
  exited leaving = true
  exited returned = true

  abbrev pub sent_by : ℕ → SentMessage A → Bool
  sent_by i e = e.source == i

  abbrev pub sent_between : ℕ → ℕ → SentMessage A → Bool
  sent_between i j e = (e.source == i) && (e.destination == j)

  abbrev pub sent_message : ℕ → ℕ → List A → SentMessage A
  sent_message i d m = record { source = i; destination = d; message = m }

  -- `alltoallv_sparse` as it starts on each rank.
  abbrev pub init : (ℕ → Messages A) → System A
  init input = record { pc = λ i. sending (input i); in_flight = []; received = [] }

-- One step of rank `i` of `n`.
pub data Step {ℓ} {A : Type ℓ} (n : ℕ) (s : System A) : System A → Type ℓ where
  skip_empty :
      (i d : ℕ) (rest : Messages A)
      → i < n
      → s.pc i ≡ sending ((d, []) ∷ rest)
      → Step n s (record s { pc = update s.pc i (sending rest) })
  -- `issend`, with the assertion on the size of the message
  issend :
      (i d : ℕ) (m : List A) (rest : Messages A)
      → i < n
      → d < n
      → s.pc i ≡ sending ((d, m) ∷ rest)
      → 0 < length m
      → length m < 2 ^ 31
      → Step n s (record s {
        pc = update s.pc i (sending rest);
        in_flight = s.in_flight ++ (sent_message i d m ∷ []);
      })
  enter_loop :
      (i : ℕ)
      → i < n
      → s.pc i ≡ sending []
      → Step n s (record s { pc = update s.pc i (probing false) })
  -- `iprobe` finds a message, the first in flight from its source, and the callback receives it.
  iprobe_hit :
      (i : ℕ) (barrier : Bool) (before after : List (SentMessage A)) (e : SentMessage A)
      → i < n
      → s.pc i ≡ probing barrier
      → s.in_flight ≡ before ++ (e ∷ after)
      → e.destination ≡ i
      → count_if (sent_between e.source i) before ≡ 0
      → Step n s (record {
        pc = update s.pc i (testing barrier);
        in_flight = before ++ after;
        received = s.received ++ (e ∷ []);
      })
  iprobe_miss :
      (i : ℕ) (barrier : Bool)
      → i < n
      → s.pc i ≡ probing barrier
      → Step n s (record s { pc = update s.pc i (testing barrier) })
  -- `test_all` finds the synchronous sends matched, and `ibarrier` starts.
  test_all_done :
      (i : ℕ)
      → i < n
      → s.pc i ≡ testing false
      → count_if (sent_by i) s.in_flight ≡ 0
      → Step n s (record s { pc = update s.pc i (probing true) })
  -- The tests of the pool and of the barrier may fail.
  test_pending :
      (i : ℕ) (barrier : Bool)
      → i < n
      → s.pc i ≡ testing barrier
      → Step n s (record s { pc = update s.pc i (probing barrier) })
  -- `barrier_request.test()` succeeds only when each rank has called `ibarrier`.
  test_done :
      (i : ℕ)
      → i < n
      → s.pc i ≡ testing true
      → ((j : ℕ) → j < n → entered (s.pc j) ≡ true)
      → Step n s (record s { pc = update s.pc i leaving })
  barrier :
      (i : ℕ)
      → i < n
      → s.pc i ≡ leaving
      → ((j : ℕ) → j < n → exited (s.pc j) ≡ true)
      → Step n s (record s { pc = update s.pc i returned })

pub data Reach {ℓ} {A : Type ℓ} (n : ℕ) (s : System A) : System A → Type ℓ where
  here : Reach n s s
  later : {t u : System A} → Reach n s t → Step n t u → Reach n s u
