-- ===== src/Utils/Retry.antt =====
-- include/utils/retry.h: `run_with_retry`, the overload with an `on_retry` callback, which the other
-- one is with a callback that does nothing. The callable is a function of the state of the world,
-- and so are the callback, the sleep and the draw of the jitter: parameters of the section. Delays
-- are milliseconds that fit an `int`, `max_attempts` is not negative.
pub mod Attempts
use distributed_data_science.Prelude.{
  ℕ, zero, suc, ◌+◌, ◌-◌, ◌*◌, ◌/◌, Bool, true, false, not, ◌||◌, Option, none, some, ◌==◌,
  if◌then◌else◌,
}

pub record RetryOptions : Type 0 where
  pub max_attempts : ℕ
  pub initial_delay : ℕ
  -- A delay times `backoff_multiplier`, a `double`, cut to a whole number.
  pub backoff : ℕ → ℕ
  pub jitter : Bool

-- A call of user code: a value, or an exception.
pub data Attempt {ℓ κ} (A : Type ℓ) (E : Type κ) : Type (ℓ ⊔ κ) where
  done : A → Attempt A E
  throws : E → Attempt A E

-- What a run ends with: a value, the exception of the last attempt, or, where no attempt was made,
-- `std::rethrow_exception` of a null pointer, which the standard leaves undefined.
pub data Ending {ℓ κ} (A : Type ℓ) (E : Type κ) : Type (ℓ ⊔ κ) where
  value : A → Ending A E
  rethrows : E → Ending A E
  rethrows_null : Ending A E

pub record Env {ℓ κ ι} (W : Type ℓ) (A : Type κ) (E : Type ι) : Type (ℓ ⊔ κ ⊔ ι) where
  pub callable : W → Attempt A E × W
  pub on_retry : ℕ → W → W
  -- The distance above `- base / 10` that the generator draws, and the generator's next state.
  pub draw : ℕ → W → ℕ × W
  pub sleep_for : ℕ → W → W

module _ {ℓ κ ι} {W : Type ℓ} {A : Type κ} {E : Type ι} (env : Env W A E) where
  open env use {callable, on_retry, draw, sleep_for}

  -- The draw is uniform over `- base / 10 … base / 10`.
  pub apply_jitter : ℕ → Bool → W → ℕ × W
  apply_jitter base enabled w =
      if not enabled || base == 0
      then (base, w)
      else (let (d, w') = draw (base / 10) w in (base - base / 10 + d, w'))

  -- The `for` loop, with `left` attempts to go, the one at hand included.
  pub attempt_loop : RetryOptions → ℕ → ℕ → ℕ → Option E → W → Ending A E × W
  attempt_loop options zero attempt delay none w = (rethrows_null, w)
  attempt_loop options zero attempt delay (some e) w = (rethrows e, w)
  attempt_loop options (suc left) attempt delay last w =
      let (outcome, w') = callable w in
      elim outcome [
        | done a ↦ (value a, w')
        | throws e ↦
            let (nap, w'') = apply_jitter delay options.jitter (on_retry attempt w') in
            let again =
              attempt_loop options left (attempt + 1) (options.backoff delay) (some e)
                (sleep_for nap w'') in
            elim left [ zero ↦ (rethrows e, w') | suc _ ↦ again ]
      ]

  pub run_with_retry : RetryOptions → W → Ending A E × W
  unfolding attempt_loop
  run_with_retry options w =
      attempt_loop options options.max_attempts 1 options.initial_delay none w
