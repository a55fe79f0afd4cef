-- ===== src/Reduce/Buffer/Tests.antt =====
-- The message buffer's theorems at a concrete program.
use mping.Prelude.{ℕ, ◌≡◌, refl, inl, List, [], ◌∷◌, ◌++◌, none, some, arith}
use mping.Reduce.Buffer.{
  MessageBuffer, MessageBufferEntry, fresh, receive, get, Operation, puts, flushes, gets, run,
}
use mping.Reduce.Buffer.Fifo.{fresh-IsValid, IsValid, accepted}
use mping.Reduce.Buffer.Leftover.{get-leftover}
use mping.Reduce.Buffer.Runs.{put_by, run-accepted}

abbrev entry : ℕ → ℕ → MessageBufferEntry ℕ
entry i v = record { index = i; value = v }

-- Two entries for rank 1, one for rank 2, a value from rank 3, then another entry.
abbrev program : List (Operation ℕ)
program =
    puts 1 10 100
    ∷ puts 1 11 101
    ∷ puts 2 12 102
    ∷ gets 3 20 (some (record { index = 20; value = 200 } ∷ []))
    ∷ puts 2 13 103
    ∷ flushes
    ∷ []

run-accepted_example :
    (s : MessageBuffer ℕ) × (run program (fresh 0 16) ≡ some s)
    × IsValid s
    × (accepted s ≡ accepted (fresh 0 16) ++ put_by program)
run-accepted_example =
    run-accepted program (fresh 0 16) ((_, refl, inl refl), tt) (fresh-IsValid 0 16)

-- The first message has two entries, the second one has one.
abbrev after_first : MessageBuffer ℕ
after_first = receive (entry 20 200 ∷ entry 21 201 ∷ []) (fresh 0 16)

get-leftover_example :
    (s : MessageBuffer ℕ) × (get (λ r. none) 3 21 (receive (entry 30 300 ∷ []) after_first)
      ≡ some (201, s))
unfolding receive fresh
get-leftover_example =
    get-leftover 0 16 (entry 20 200 ∷ []) [] (entry 30 300 ∷ []) (entry 21 201) after_first
      (λ r. none) 3 (omega arith) (λ e. omega (arith, e)) tt refl refl (omega arith)
