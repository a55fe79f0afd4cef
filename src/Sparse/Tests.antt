-- ===== src/Sparse/Tests.antt =====
-- Two ranks, of which the first sends one message to the second and an empty one to itself.
use mping.Prelude.{ℕ, zero, suc, ◌<◌, ◌≡◌, refl, Bool, true, false, [], ◌∷◌, count_if, total, arith}
use mping.Sparse.{
  Messages, SentMessage, System, entered, init, Reach, issend, skip_empty, enter_loop, iprobe_hit,
  iprobe_miss, test_all_done, test_done, here, later,
}
use mping.Sparse.Invariant.{count_messages}
use mping.Sparse.Delivery.{exited-delivered}
use mping.Sparse.Progress.{AllReturned, reach-returned}
use mping.Sparse.Turns.{Sendable}

abbrev one_message : ℕ → Messages ℕ
one_message zero = (1, 7 ∷ 8 ∷ []) ∷ (0, []) ∷ []
one_message (suc i) = []

-- The first rank has sent, the second one has received, and both have entered the barrier.
abbrev exchange : (s : System ℕ) × Reach 2 (init one_message) s
exchange = (
  _,
  later
      (later
        (later
          (later
            (later
              (later
                (later
                  (later
                    (later here (
                      issend 0 1 (7 ∷ 8 ∷ []) ((0, []) ∷ []) (omega arith) (omega arith) refl
                        (omega arith) (omega arith)))
                    (skip_empty 0 0 [] (omega arith) refl))
                  (enter_loop 1 (omega arith) refl))
                (enter_loop 0 (omega arith) refl))
              (iprobe_hit 1 false [] [] _ (omega arith) refl refl refl refl))
            (iprobe_miss 0 false (omega arith) refl))
          (test_all_done 0 (omega arith) refl refl))
        (test_all_done 1 (omega arith) refl refl))
      (iprobe_miss 0 true (omega arith) refl),
)

both_entered : (j : ℕ) → j < 2 → entered (exchange.0.pc j) ≡ true
both_entered zero l = refl
both_entered (suc zero) l = refl
both_entered (suc (suc j)) l = absurd (omega arith)

abbrev left_loop : (s : System ℕ) × Reach 2 (init one_message) s
left_loop = (_, later exchange.1 (test_done 0 (omega arith) refl both_entered))

exited-delivered_example :
    (left_loop.0.in_flight ≡ [])
    × ((test : SentMessage ℕ → Bool)
        → count_if test left_loop.0.received ≡ total 2 (count_messages test) one_message)
exited-delivered_example =
    exited-delivered 2 one_message left_loop.0 left_loop.1 0 (omega arith) refl

one_message-Sendable : (i : ℕ) → i < 2 → Sendable 2 (one_message i)
one_message-Sendable zero l = (omega arith, omega arith, (omega arith, omega arith, tt))
one_message-Sendable (suc i) l = tt

reach-returned_example :
    (t : System ℕ) × Reach 2 exchange.0 t
    × AllReturned 2 t
    × ((test : SentMessage ℕ → Bool)
        → count_if test t.received ≡ total 2 (count_messages test) one_message)
reach-returned_example = reach-returned 2 one_message exchange.0 one_message-Sendable exchange.1
