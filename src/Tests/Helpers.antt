-- ===== src/Tests/Helpers.antt =====
-- A breaker that opens at two failures, and a callable that fails twice.
use distributed_data_science.Prelude.{ℕ, zero, suc, ◌*◌, true, String}
use distributed_data_science.Utils.CircuitBreaker.{open_state, CircuitBreaker, allows, step}
use distributed_data_science.Utils.CircuitBreaker.Transitions.{Edge, step-Edge}
use distributed_data_science.Utils.Retry.{RetryOptions, Attempt, done, throws}

abbrev opened : CircuitBreaker
opened = record {
  failure_threshold = 2;
  half_open_success_threshold = 2;
  open_timeout = 100;
  consecutive_failures = 2;
  half_open_successes = 0;
  state = open_state;
  opened_at = 7;
}

step-Edge_example : Edge opened (allows 200) (step opened (allows 200)).state
step-Edge_example = step-Edge opened (allows 200)

abbrev options : RetryOptions
options = record { max_attempts = 3; initial_delay = 100; backoff = λ d. d * 2; jitter = true }

abbrev second_try : ℕ → Attempt String String
second_try zero = throws "busy"
second_try (suc _) = done "ok"

abbrev centred : ℕ → ℕ
centred d = d
