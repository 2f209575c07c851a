-- ===== src/Utils/CircuitBreaker/Trip.antt =====
-- How many failures open a breaker, how long it refuses, and how many successes close it again.
use distributed_data_science.Prelude.{
  ℕ, zero, suc, ◌+◌, ◌≤◌, ◌<◌, ◌≡◌, refl, true, false, List, [], ◌∷◌, map, arith, length, All, max,
}
use distributed_data_science.Utils.CircuitBreaker.{
  closed, open_state, half_open, CircuitBreaker, Call, allows, succeeds, fails, resets, init, allow,
  step, run,
}

failures-stay_open :
    (b : CircuitBreaker) (times : List ℕ)
    → b.state ≡ open_state
    → (run b (map fails times)).state ≡ open_state
unfolding run step
failures-stay_open b [] e = e
failures-stay_open b (now ∷ times) e = failures-stay_open (step b (fails now)) times (ground arith)

-- What a row of failures makes of a closed breaker.
abbrev AfterFailures : CircuitBreaker → ℕ → CircuitBreaker → Type 0
AfterFailures b n c =
    (b.consecutive_failures + n < max 1 b.failure_threshold → c.state ≡ closed)
    × (b.failure_threshold ≤ b.consecutive_failures + n → c.state ≡ open_state)

failures-AfterFailures :
    (b : CircuitBreaker) (now : ℕ) (times : List ℕ)
    → b.state ≡ closed
    → AfterFailures b (suc (length times)) (run b (map fails (now ∷ times)))
unfolding run step
failures-AfterFailures b now [] e = ground arith
failures-AfterFailures b now (later ∷ times) e = ground (
  arith,
  failures-AfterFailures (step b (fails now)) later times,
  failures-stay_open (step b (fails now)) (later ∷ times),
)

-- A new breaker opens with the failure that makes the count reach the threshold (the first one, if
-- the threshold is 0), and not before: after a row of failures with no success among them it is
-- open if there are that many, and closed if there are fewer.
pub trips_at_threshold :
    (threshold timeout probes now : ℕ) (times : List ℕ)
    → let b = run (init threshold timeout probes) (map fails (now ∷ times)) in
      (length (now ∷ times) < max 1 threshold → b.state ≡ closed)
      × (threshold ≤ length (now ∷ times) → b.state ≡ open_state)
unfolding init
trips_at_threshold threshold timeout probes now times =
    let after = failures-AfterFailures (init threshold timeout probes) now times refl in
    (λ h. after.0 (omega arith), λ h. after.1 (omega arith))

-- A call that comes before `limit`: an `allow` that early, a success, or a failure that is reported
-- no earlier than the breaker opened; not a `reset`.
abbrev pub Early : ℕ → ℕ → Call → Type 0
Early timeout limit (allows now) = now < limit
Early timeout limit succeeds = Unit
Early timeout limit (fails now) = limit ≤ now + timeout
Early timeout limit resets = ⊥

still_open :
    (b : CircuitBreaker) (cs : List Call) (timeout limit now : ℕ)
    → b.state ≡ open_state
    → b.open_timeout ≡ timeout
    → limit ≤ b.opened_at + timeout
    → All (Early timeout limit) cs
    → now < limit
    → ((run b cs).state ≡ open_state) × ((allow (run b cs) now).1 ≡ false)
unfolding run step allow
still_open b [] timeout limit now e w h early t = ground arith
still_open b (allows t ∷ cs) timeout limit now e w h early n =
    still_open (step b (allows t)) cs timeout limit now (ground arith) (ground arith) (ground arith)
      early.1 n
still_open b (succeeds ∷ cs) timeout limit now e w h early n =
    still_open (step b succeeds) cs timeout limit now (ground arith) (ground arith) (ground arith)
      early.1 n
still_open b (fails t ∷ cs) timeout limit now e w h early n =
    still_open (step b (fails t)) cs timeout limit now (ground arith) (ground arith) (ground arith)
      early.1 n
still_open b (resets ∷ cs) timeout limit now e w h early n = absurd early.0

-- An open breaker stays open, and refuses any call, until its timeout has passed since it opened,
-- whatever successes and failures of calls still under way are reported meanwhile.
open-refuses :
    (b : CircuitBreaker) (cs : List Call) (limit now : ℕ)
    → b.state ≡ open_state
    → limit ≤ b.opened_at + b.open_timeout
    → All (Early b.open_timeout limit) cs
    → now < limit
    → ((run b cs).state ≡ open_state) × ((allow (run b cs) now).1 ≡ false)
open-refuses b cs limit now e h early n = still_open b cs b.open_timeout limit now e refl h early n

abbrev pub successes : ℕ → List Call
successes zero = []
successes (suc n) = succeeds ∷ successes n

successes-stay_closed :
    (b : CircuitBreaker) (n : ℕ) → b.state ≡ closed → (run b (successes n)).state ≡ closed
unfolding run step
successes-stay_closed b zero e = e
successes-stay_closed b (suc n) e = successes-stay_closed (step b succeeds) n (ground arith)

abbrev AfterSuccesses : CircuitBreaker → ℕ → CircuitBreaker → Type 0
AfterSuccesses b n c =
    (b.half_open_successes + n < max 1 b.half_open_success_threshold → c.state ≡ half_open)
    × (b.half_open_success_threshold ≤ b.half_open_successes + n → c.state ≡ closed)

successes-AfterSuccesses :
    (b : CircuitBreaker) (n : ℕ)
    → b.state ≡ half_open
    → AfterSuccesses b (suc n) (run b (successes (suc n)))
unfolding run step
successes-AfterSuccesses b zero e = ground arith
successes-AfterSuccesses b (suc n) e = ground (
  arith,
  successes-AfterSuccesses (step b succeeds) n,
  successes-stay_closed (step b succeeds) (suc n),
)

-- Once the timeout has passed, `allow` lets a call through, and the breaker then closes with the
-- success that makes their number reach the threshold for a half-open breaker, and not before.
pub closes_at_threshold :
    (b : CircuitBreaker) (now n : ℕ)
    → b.state ≡ open_state
    → b.opened_at + b.open_timeout ≤ now
    → let c = run b (allows now ∷ successes (suc n)) in
      ((allow b now).1 ≡ true)
      × (suc n < max 1 b.half_open_success_threshold → c.state ≡ half_open)
      × (b.half_open_success_threshold ≤ suc n → c.state ≡ closed)
unfolding run step allow
closes_at_threshold b now n e h =
    let after = successes-AfterSuccesses (step b (allows now)) n (ground arith) in
    (ground arith, ground (arith, after), ground (arith, after))
