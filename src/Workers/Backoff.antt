-- ===== src/Workers/Backoff.antt =====
-- The delays of the polling loop.

use zephipay_backend.Json.{Double}
use zephipay_backend.Common.{List, [], arith, length, ok, suc, zero, ℕ, ◌<◌, ◌∷◌, ◌≡◌}
use zephipay_backend.Workers.{
  LoopEvent, LoopState, end_run, ended_with, failure, fire_timer, fired, halted, idle, loop_step,
  make_loop, run_loop, schedule_next, start_loop, started, stop_loop, work,
}

loop_step_in_range :
    (delays : List Double) (event : LoopEvent) (s : LoopState)
    → s.delay_index < length delays
    → (loop_step delays event s).delay_index < length delays
unfolding loop_step start_loop stop_loop fire_timer end_run schedule_next
loop_step_in_range delays started s i = ground arith
loop_step_in_range delays halted s i = i
loop_step_in_range delays (fired h) s i = i
loop_step_in_range delays (ended_with work) s i = ground arith
loop_step_in_range delays (ended_with idle) s i = ground arith
loop_step_in_range delays (ended_with failure) s i = ground arith

run_loop_kept :
    (delays : List Double) (s : LoopState) (events : List LoopEvent)
    → s.delay_index < length delays
    → (run_loop delays s events).delay_index < length delays
unfolding run_loop
run_loop_kept delays s [] i = i
run_loop_kept delays s (event ∷ rest) i =
    run_loop_kept delays (loop_step delays event s) rest (loop_step_in_range delays event s i)

-- A loop that the constructor accepts has, after any events, the index of one of its delays.
pub run_loop_in_range :
    (delays : List Double) (s : LoopState) (events : List LoopEvent)
    → make_loop delays ≡ ok s
    → (run_loop delays s events).delay_index < length delays
unfolding make_loop
run_loop_in_range delays s events h = run_loop_kept delays s events (ground arith)

-- `n` ends of iterations that did no work.
pub idle_ends : ℕ → List LoopEvent
idle_ends zero = []
idle_ends (suc n) = ended_with idle ∷ idle_ends n
