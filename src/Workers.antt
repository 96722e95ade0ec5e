-- ===== src/Workers.antt =====
-- The polling loop of the workers: executions/adaptiveWorkerLoop.ts. The host keeps the timers that
-- are pending, each under its handle; `setTimeout` adds one under a new handle, `clearTimeout` takes
-- one away. The firing of a timer, and the end of an iteration that one has started, are events.
pub mod Backoff
pub mod Timers
use zephipay_backend.Common.{
  Bool, List, Option, Result, [], any, eqb, false, if◌then◌else◌, leb, length, ltb, min, none, not,
  ok, pos, select, some, suc, throw_if, true, zero, ℕ, ◌+◌, ◌++◌, ◌-◌, ◌>>=◌, ◌>>◌, ◌||◌, ◌∷◌,
}
use zephipay_backend.Json.{Double, integer}

pub data IterationOutcome : Type 0 where
  work idle failure : IterationOutcome

-- A timer of the host, with the delay it was given.
pub record HostTimer : Type 0 where
  pub handle : ℕ
  pub delay : Option Double

-- The fields of the loop, and of the host the timers that are pending, the handle of its next timer
-- and the number of iterations that are under way.
pub record LoopState : Type 0 where
  pub stopped : Bool
  pub delay_index : ℕ
  pub timer : Option ℕ
  pub pending : List HostTimer
  pub next_handle : ℕ
  pub under_way : ℕ

pub data LoopError : Type 0 where
  invalid_delays : LoopError

abbrev pub new_loop : LoopState
new_loop = record {
  stopped = true;
  delay_index = 0;
  timer = none;
  pending = [];
  next_handle = 0;
  under_way = 0;
}

-- `!Number.isInteger(value) || value < 1`
abbrev pub is_bad_delay : Double → Bool
is_bad_delay (integer (pos n)) = ltb n 1
is_bad_delay _ = true

-- The check of the constructor.
unfoldable pub make_loop : List Double → Result LoopError LoopState
make_loop delays = do
  throw_if (eqb (length delays) 0 || any is_bad_delay delays) invalid_delays
  ok new_loop

-- `this.delays[index]`
abbrev pub delay_at : List Double → ℕ → Option Double
delay_at [] i = none
delay_at (d ∷ ds) zero = some d
delay_at (d ∷ ds) (suc i) = delay_at ds i

-- `clearTimeout`, and what the host does with a timer that it fires.
abbrev pub without_timer : ℕ → List HostTimer → List HostTimer
without_timer h timers = select (λ t. not (eqb t.handle h)) timers

unfoldable pub schedule_next : Option Double → LoopState → LoopState
schedule_next delay s = if s.stopped then s else record s {
  timer = some s.next_handle;
  pending = s.pending ++ record { handle = s.next_handle; delay = delay } ∷ [];
  next_handle = s.next_handle + 1;
}

unfoldable pub start_loop : List Double → LoopState → LoopState
unfolding schedule_next
start_loop delays s =
    if not s.stopped
    then s
    else schedule_next (delay_at delays 0) (record s { stopped = false; delay_index = 0 })

-- The pending timers once the one that the loop holds is cancelled.
abbrev pub cancelled_timer : Option ℕ → List HostTimer → List HostTimer
cancelled_timer none timers = timers
cancelled_timer (some h) timers = without_timer h timers

unfoldable pub stop_loop : LoopState → LoopState
stop_loop s = record s { stopped = true; pending = cancelled_timer s.timer s.pending; timer = none }

-- The host fires a timer, and `run` goes up to its iteration.
unfoldable pub fire_timer : ℕ → LoopState → LoopState
fire_timer h s = record s {
  pending = without_timer h s.pending;
  timer = none;
  under_way = s.under_way + 1;
}

abbrev pub index_after : List Double → IterationOutcome → ℕ → ℕ
index_after delays work i = 0
index_after delays _ i = min (i + 1) (length delays - 1)

-- `run`, from the outcome of its iteration.
unfoldable pub end_run : List Double → IterationOutcome → LoopState → LoopState
unfolding schedule_next
end_run delays outcome s =
    let t = record s { under_way = s.under_way - 1 } in
    if s.stopped
    then t
    else let i = index_after delays outcome s.delay_index in
      schedule_next (delay_at delays i) (record t { delay_index = i })

pub data LoopEvent : Type 0 where
  started halted : LoopEvent
  fired : ℕ → LoopEvent
  ended_with : IterationOutcome → LoopEvent

unfoldable pub loop_step : List Double → LoopEvent → LoopState → LoopState
loop_step delays started s = start_loop delays s
loop_step delays halted s = stop_loop s
loop_step delays (fired h) s = fire_timer h s
loop_step delays (ended_with outcome) s = end_run delays outcome s

unfoldable pub run_loop : List Double → LoopState → List LoopEvent → LoopState
run_loop delays s [] = s
run_loop delays s (event ∷ rest) = run_loop delays (loop_step delays event s) rest
