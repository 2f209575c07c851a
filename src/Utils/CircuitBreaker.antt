-- ===== src/Utils/CircuitBreaker.antt =====
-- include/utils/circuit_breaker.h. Times are milliseconds of the steady clock, read once by each
-- call and passed in as `now`; the mutex makes a call one step. The counters are `int`s and the
-- thresholds are taken to be not negative.
pub mod Transitions
pub mod Trip
use distributed_data_science.Prelude.{ℕ, ◌+◌, Bool, true, false, List, [], ◌∷◌, leb, if◌then◌else◌}

pub data State : Type 0 where
  closed open_state half_open : State

pub record CircuitBreaker : Type 0 where
  pub failure_threshold : ℕ
  pub half_open_success_threshold : ℕ
  pub open_timeout : ℕ
  pub consecutive_failures : ℕ
  pub half_open_successes : ℕ
  pub state : State
  pub opened_at : ℕ

unfoldable pub init : ℕ → ℕ → ℕ → CircuitBreaker
init failure_threshold open_timeout half_open_success_threshold = record {
  failure_threshold = failure_threshold;
  half_open_success_threshold = half_open_success_threshold;
  open_timeout = open_timeout;
  consecutive_failures = 0;
  half_open_successes = 0;
  state = closed;
  opened_at = 0;
}

unfoldable pub reset : CircuitBreaker → CircuitBreaker
reset b = record b { state = closed; consecutive_failures = 0; half_open_successes = 0 }

unfoldable pub trip_open : CircuitBreaker → ℕ → CircuitBreaker
trip_open b now = record b { state = open_state; opened_at = now; half_open_successes = 0 }

-- `now - opened_at_ >= open_timeout_`, with no subtraction.
allow_in : State → CircuitBreaker → ℕ → CircuitBreaker × Bool
allow_in open_state b now =
    if leb (b.opened_at + b.open_timeout) now
    then (record b { state = half_open; half_open_successes = 0 }, true)
    else (b, false)
allow_in closed b now = (b, true)
allow_in half_open b now = (b, true)

unfoldable pub allow : CircuitBreaker → ℕ → CircuitBreaker × Bool
unfolding allow_in
allow b now = allow_in b.state b now

on_success_in : State → CircuitBreaker → CircuitBreaker
unfolding reset
on_success_in half_open b =
    let b' = record b { half_open_successes = b.half_open_successes + 1 } in
    if leb b.half_open_success_threshold b'.half_open_successes then reset b' else b'
on_success_in closed b = record b { consecutive_failures = 0 }
on_success_in open_state b = record b { consecutive_failures = 0 }

unfoldable pub on_success : CircuitBreaker → CircuitBreaker
unfolding on_success_in
on_success b = on_success_in b.state b

count_failure : CircuitBreaker → ℕ → CircuitBreaker
unfolding trip_open
count_failure b now =
    let b' = record b { consecutive_failures = b.consecutive_failures + 1 } in
    if leb b.failure_threshold b'.consecutive_failures then trip_open b' now else b'

on_failure_in : State → CircuitBreaker → ℕ → CircuitBreaker
unfolding trip_open count_failure
on_failure_in half_open b now = trip_open b now
on_failure_in closed b now = count_failure b now
on_failure_in open_state b now = count_failure b now

unfoldable pub on_failure : CircuitBreaker → ℕ → CircuitBreaker
unfolding on_failure_in
on_failure b now = on_failure_in b.state b now

-- The calls of clients, each with the time at which it is made.
pub data Call : Type 0 where
  allows : ℕ → Call
  succeeds : Call
  fails : ℕ → Call
  resets : Call

unfoldable pub step : CircuitBreaker → Call → CircuitBreaker
unfolding allow on_success on_failure reset
step b (allows now) = (allow b now).0
step b succeeds = on_success b
step b (fails now) = on_failure b now
step b resets = reset b

unfoldable pub run : CircuitBreaker → List Call → CircuitBreaker
unfolding step
run b [] = b
run b (c ∷ cs) = run (step b c) cs
