-- ===== src/Utils/CircuitBreaker/Transitions.antt =====
-- The state diagram of the breaker, and what holds between two calls.
use distributed_data_science.Prelude.{
  ℕ, ◌+◌, ◌≤◌, ◌<◌, ◌≡◌, ◌⊎◌, ◌↔◌, false, List, [], ◌∷◌, arith, max,
}
use distributed_data_science.Utils.CircuitBreaker.{
  State, closed, open_state, half_open, CircuitBreaker, Call, allows, succeeds, fails, resets, init,
  allow, step, run,
}

-- The diagram: each edge with the test of the code that guards it.
pub data Edge (b : CircuitBreaker) : Call → State → Type 0 where
  stay : {c : Call} → Edge b c b.state
  probe :
      {now : ℕ}
      → b.state ≡ open_state
      → b.opened_at + b.open_timeout ≤ now
      → Edge b (allows now) half_open
  recover :
      b.state ≡ half_open
      → b.half_open_success_threshold ≤ b.half_open_successes + 1
      → Edge b succeeds closed
  relapse : {now : ℕ} → b.state ≡ half_open → Edge b (fails now) open_state
  trip :
      {now : ℕ} → b.failure_threshold ≤ b.consecutive_failures + 1 → Edge b (fails now) open_state
  force : Edge b resets closed

-- Every call either leaves the state of the breaker or follows an edge of the diagram: to
-- `half_open` only by `allow` after the timeout, to `closed` only by enough successes of a
-- half-open breaker or by `reset`, to `open_state` only by a failure of a half-open breaker or one
-- that reaches the threshold.
pub step-Edge : (b : CircuitBreaker) (c : Call) → Edge b c (step b c).state
unfolding step
step-Edge b (allows now) = grind (arith, stay, probe)
step-Edge b succeeds = grind (arith, stay, recover)
step-Edge b (fails now) = grind (arith, stay, relapse, trip)
step-Edge b resets = force

-- `allow` refuses a call exactly when the breaker is open and its timeout has not passed; a refusal
-- leaves the breaker as it was.
pub allow-refuses_iff :
    (b : CircuitBreaker) (now : ℕ)
    → (((allow b now).1 ≡ false) ↔ ((b.state ≡ open_state) × (now < b.opened_at + b.open_timeout)))
      × ((allow b now).1 ≡ false → (allow b now).0 ≡ b)
unfolding allow
allow-refuses_iff b now = ground arith

-- What the counters of a breaker mean in each state.
pub record IsWithin (b : CircuitBreaker) : Type 0 where
  pub failures_short : b.state ≡ closed → b.consecutive_failures < max 1 b.failure_threshold
  pub successes_short : b.half_open_successes < max 1 b.half_open_success_threshold
  pub idle_zero : (b.state ≡ half_open) ⊎ (b.half_open_successes ≡ 0)

init-IsWithin : (threshold timeout probes : ℕ) → IsWithin (init threshold timeout probes)
unfolding init
init-IsWithin threshold timeout probes = ground arith

step-IsWithin : (b : CircuitBreaker) (c : Call) → IsWithin b → IsWithin (step b c)
unfolding step
step-IsWithin b (allows now) v = ground arith
step-IsWithin b succeeds v = ground arith
step-IsWithin b (fails now) v = ground arith
step-IsWithin b resets v = ground arith

run-IsWithin_from : (b : CircuitBreaker) (cs : List Call) → IsWithin b → IsWithin (run b cs)
unfolding run
run-IsWithin_from b [] v = v
run-IsWithin_from b (c ∷ cs) v = run-IsWithin_from (step b c) cs (step-IsWithin b c v)

-- After any calls on a new breaker: a closed breaker counts fewer failures than the threshold (or
-- none, if the threshold is below 1), the successes stay below theirs, and only a half-open breaker
-- counts successes.
pub run-IsWithin :
    (threshold timeout probes : ℕ) (cs : List Call)
    → IsWithin (run (init threshold timeout probes) cs)
run-IsWithin threshold timeout probes cs =
    run-IsWithin_from (init threshold timeout probes) cs (init-IsWithin threshold timeout probes)
