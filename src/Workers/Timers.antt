-- ===== src/Workers/Timers.antt =====
-- The timers that a polling loop leaves with its host.

-- Whether an event can happen: the host fires a timer that is pending, and an iteration that ends is
-- under way. A loop that is started again has no iteration under way.
use zephipay_backend.Common.{
  Bool-cases, inl, inr, length, ok, ◌<◌, Bool, List, [], any, arith, eqb, false, if◌then◌else◌, ltb,
  none, not, refl, some, true, ℕ, ◌||◌, ◌∷◌, ◌≡◌,
}
use zephipay_backend.Workers.{
  make_loop, run_loop, IterationOutcome, LoopEvent, LoopState, delay_at, end_run, ended_with,
  fire_timer, fired, halted, loop_step, schedule_next, start_loop, started, stop_loop,
}
use zephipay_backend.Workers.Backoff.{run_loop_in_range}
use zephipay_backend.Json.{Double}

unfoldable pub can_happen : LoopEvent → LoopState → Bool
can_happen started s = not s.stopped || eqb s.under_way 0
can_happen halted s = true
can_happen (fired h) s = any (λ t. eqb t.handle h) s.pending
can_happen (ended_with outcome) s = ltb 0 s.under_way

-- Every event of a run can happen where it comes.
unfoldable pub all_happen : List Double → LoopState → List LoopEvent → Bool
all_happen delays s [] = true
all_happen delays s (event ∷ rest) =
    let after = all_happen delays (loop_step delays event s) rest in
    if can_happen event s then after else false

-- What a loop has in hand: nothing, its one timer with the delay of its index, or its one iteration.
-- A running loop has something in hand, a stopped one has no timer.
pub data InHand (delays : List Double) (s : LoopState) : Type 0 where
  at_rest : s.stopped ≡ true → s.timer ≡ none → s.pending ≡ [] → s.under_way ≡ 0 → InHand delays s
  waiting :
      (h : ℕ)
      → s.stopped ≡ false
      → s.timer ≡ some h
      → s.pending ≡ record { handle = h; delay = delay_at delays s.delay_index } ∷ []
      → s.under_way ≡ 0
      → InHand delays s
  iterating : s.timer ≡ none → s.pending ≡ [] → s.under_way ≡ 1 → InHand delays s

started-InHand :
    (delays : List Double) (s : LoopState)
    → can_happen started s ≡ true
    → InHand delays s
    → InHand delays (start_loop delays s)
unfolding can_happen start_loop schedule_next
started-InHand delays s can (at_rest stop t p u) =
    waiting s.next_handle (ground arith) (ground arith) (ground arith) (ground arith)
started-InHand delays s can (waiting h run t p u) =
    waiting h (ground arith) (ground arith) (ground arith) (ground arith)
started-InHand delays s can (iterating t p u) =
    iterating (ground arith) (ground arith) (ground arith)

halted-InHand :
    (delays : List Double) (s : LoopState) → InHand delays s → InHand delays (stop_loop s)
unfolding stop_loop
halted-InHand delays s (at_rest stop t p u) = at_rest refl refl (ground arith) u
halted-InHand delays s (waiting h run t p u) = at_rest refl refl (ground arith) u
halted-InHand delays s (iterating t p u) = iterating refl (ground arith) u

fired-InHand :
    (delays : List Double) (h : ℕ) (s : LoopState)
    → can_happen (fired h) s ≡ true
    → InHand delays s
    → InHand delays (fire_timer h s)
unfolding can_happen fire_timer
fired-InHand delays h s can (at_rest stop t p u) = absurd (ground arith)
fired-InHand delays h s can (waiting k run t p u) = iterating refl (ground arith) (ground arith)
fired-InHand delays h s can (iterating t p u) = absurd (ground arith)

ended-InHand :
    (delays : List Double) (outcome : IterationOutcome) (s : LoopState)
    → can_happen (ended_with outcome) s ≡ true
    → InHand delays s
    → InHand delays (end_run delays outcome s)
unfolding can_happen end_run schedule_next
ended-InHand delays outcome s can (at_rest stop t p u) = absurd (ground arith)
ended-InHand delays outcome s can (waiting k run t p u) = absurd (ground arith)
ended-InHand delays outcome s can (iterating t p u) = elim (Bool-cases s.stopped) [
  | inl stop ↦ at_rest (ground arith) (ground arith) (ground arith) (ground arith)
  | inr run ↦ waiting s.next_handle (ground arith) (ground arith) (ground arith) (ground arith)
]

step-InHand :
    (delays : List Double) (event : LoopEvent) (s : LoopState)
    → can_happen event s ≡ true
    → InHand delays s
    → InHand delays (loop_step delays event s)
unfolding loop_step
step-InHand delays started s can held = started-InHand delays s can held
step-InHand delays halted s can held = halted-InHand delays s held
step-InHand delays (fired h) s can held = fired-InHand delays h s can held
step-InHand delays (ended_with outcome) s can held = ended-InHand delays outcome s can held

run-InHand :
    (delays : List Double) (s : LoopState) (events : List LoopEvent)
    → all_happen delays s events ≡ true
    → InHand delays s
    → InHand delays (run_loop delays s events)
unfolding all_happen run_loop
run-InHand delays s [] can held = held
run-InHand delays s (event ∷ rest) can held =
    run-InHand delays (loop_step delays event s) rest (ground arith)
      (step-InHand delays event s (ground arith) held)

-- From a loop that the constructor accepts, after any events that can happen, where the loop is not
-- started again while an iteration is under way, the index is one of the delays, and the loop has in
-- hand at most one of a timer, pending with the host under its handle and with the delay of its index,
-- and an iteration: it has one of them while it runs, and no timer while it is stopped.
pub run_loop-InHand :
    (delays : List Double) (s : LoopState) (events : List LoopEvent)
    → make_loop delays ≡ ok s
    → all_happen delays s events ≡ true
    → ((run_loop delays s events).delay_index < length delays)
      × InHand delays (run_loop delays s events)
unfolding make_loop
run_loop-InHand delays s events h can = (
  run_loop_in_range delays s events h,
  run-InHand delays s events can
      (at_rest (ground arith) (ground arith) (ground arith) (ground arith)),
)
