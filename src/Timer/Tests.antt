-- ===== src/Timer/Tests.antt =====
-- A timer with nested measurements.
use mping.Prelude.{ℕ, ◌+◌, ◌-◌, ◌<◌, ◌≡◌, refl, [], some, arith}
use mping.Timer.{
  TimerTree, accumulate, append, init, Program, done, measure, run, aggregate_measurements_locally,
}
use mping.Timer.Nodes.{IsValid, Keeps, durations_of}
use mping.Timer.Measured.{run-Keeps, run-durations, init-IsValid}

abbrev inner : Program ℕ
inner = measure 7 12 done accumulate [] 15 (measure 7 16 done append [] 18 done)

abbrev root_at_0 : TimerTree ℕ
root_at_0 = init 0

init-current : (init {D = ℕ} 0).current_node ≡ some 0
unfolding init
init-current = refl

init-room : 0 < (init {D = ℕ} 0).next
unfolding init
init-room = omega arith

run-Keeps_example :
    (t : TimerTree ℕ) × (run ◌+◌ ◌-◌ 0 (measure 5 10 inner accumulate [] 20 done) (init 0) ≡ some t)
    × IsValid t
    × (t.current_node ≡ some 0)
    × Keeps 0 (init 0) t
run-Keeps_example =
    run-Keeps ◌+◌ ◌-◌ 0 (measure 5 10 inner accumulate [] 20 done) 0 (init 0) (init-IsValid 0)
      init-room init-current

run-durations_example :
    (t : TimerTree ℕ) × (run ◌+◌ ◌-◌ 0 (measure 5 10 inner accumulate [] 20 done) (init 0) ≡ some t)
    × (durations_of t 0 5
        ≡ aggregate_measurements_locally ◌+◌ ◌-◌ accumulate (20 - 10) (durations_of (init 0) 0 5))
run-durations_example =
    run-durations ◌+◌ ◌-◌ 0 5 10 inner accumulate [] 20 0 (init 0) (init-IsValid 0) init-room
      init-current
