-- ===== src/Utils/Retry/Attempts.antt =====
-- What `run_with_retry` does with a callable whose outcomes are given, one for each call.
use distributed_data_science.Prelude.{
  ℕ, zero, suc, ◌+◌, ◌*◌, ◌/◌, ◌≤◌, ◌≡◌, sym, subst, ◌∙◌, ap, Bool, none, some, Option, List, [],
  ◌∷◌, ◌++◌, arith,
}
use mathlib.Core.List.{append_assoc, append-nil}
use distributed_data_science.Utils.Retry.{
  RetryOptions, Attempt, throws, rethrows, rethrows_null, Env, apply_jitter, attempt_loop,
  run_with_retry,
}

-- What a run did: the calls, the arguments of `on_retry`, and the sleeps.
pub record Log : Type 0 where
  pub calls : ℕ
  pub notified : List ℕ
  pub pauses : List ℕ

abbrev pub fresh : Log
fresh = record { calls = 0; notified = []; pauses = [] }

-- `attempt`, `attempt + 1` …, `n` of them.
abbrev pub indices : ℕ → ℕ → List ℕ
indices zero attempt = []
indices (suc n) attempt = attempt ∷ indices n (attempt + 1)

module _ {A E : Type 0} (script : ℕ → Attempt A E) (offset : ℕ → ℕ) where
  -- The callable plays the script; the generator draws `offset`.
  abbrev pub scripted : Env Log A E
  scripted = record {
    callable = λ w. (script w.calls, record w { calls = w.calls + 1 });
    on_retry = λ n w. record w { notified = w.notified ++ n ∷ [] };
    draw = λ r w. (offset r, w);
    sleep_for = λ n w. record w { pauses = w.pauses ++ n ∷ [] };
  }

  module _ (options : RetryOptions) where
    pub pause : ℕ → ℕ
    unfolding apply_jitter
    pause delay = (apply_jitter scripted delay options.jitter fresh).0

    -- The sleeps between `n + 1` attempts.
    abbrev pub sleeps : ℕ → ℕ → List ℕ
    sleeps zero delay = []
    sleeps (suc n) delay = pause delay ∷ sleeps n (options.backoff delay)

    -- A failed attempt that is followed by another one.
    abbrev failed : ℕ → ℕ → Log → Log
    failed attempt delay w = record {
      calls = w.calls + 1;
      notified = w.notified ++ attempt ∷ [];
      pauses = w.pauses ++ pause delay ∷ [];
    }

    abbrev rounds : ℕ → ℕ → ℕ → Log → Log
    rounds zero attempt delay w = record w { calls = w.calls + 1 }
    rounds (suc n) attempt delay w =
        rounds n (attempt + 1) (options.backoff delay) (failed attempt delay w)

    jitter_pause :
        (delay : ℕ) (w : Log) → apply_jitter scripted delay options.jitter w ≡ (pause delay, w)
    unfolding apply_jitter pause
    jitter_pause delay w = ground arith

    loop_step :
        (left attempt delay : ℕ) (last : Option E) (w : Log) (e : E)
        → script w.calls ≡ throws e
        → attempt_loop scripted options (suc (suc left)) attempt delay last w
          ≡ attempt_loop scripted options
              (suc left)
              (attempt + 1)
              (options.backoff delay)
              (some e)
              (failed attempt delay w)
    unfolding attempt_loop
    loop_step left attempt delay last w e h = rw h (
        ap
          (λ (r : ℕ × Log).
            attempt_loop scripted options (suc left) (attempt + 1) (options.backoff delay) (some e)
              (scripted.sleep_for r.0 r.1))
          (jitter_pause delay
            (record w { calls = w.calls + 1; notified = w.notified ++ attempt ∷ [] })))

    loop_rethrows :
        (errors : ℕ → E) (n attempt delay : ℕ) (last : Option E) (w : Log)
        → ((i : ℕ) → i ≤ n → script (w.calls + i) ≡ throws (errors i))
        → attempt_loop scripted options (suc n) attempt delay last w
          ≡ (rethrows (errors n), rounds n attempt delay w)
    unfolding attempt_loop
    loop_rethrows errors zero attempt delay last w fails =
        let here : script w.calls ≡ throws (errors 0) =
          subst (λ k. script k ≡ throws (errors 0)) (omega arith) (fails 0 (omega arith)) in
        rw here
    loop_rethrows errors (suc n) attempt delay last w fails =
        let here : script w.calls ≡ throws (errors 0) =
          subst (λ k. script k ≡ throws (errors 0)) (omega arith) (fails 0 (omega arith)) in
        loop_step n attempt delay last w (errors 0) here
        ∙ loop_rethrows (λ i. errors (suc i)) n (attempt + 1) (options.backoff delay)
            (some (errors 0)) (failed attempt delay w)
            (λ i h.
              subst (λ k. script k ≡ throws (errors (suc i))) (omega arith)
                (fails (suc i) (omega arith)))

    rounds_lem :
        (n attempt delay : ℕ) (w : Log)
        → rounds n attempt delay w ≡ record {
          calls = w.calls + n + 1;
          notified = w.notified ++ indices n attempt;
          pauses = w.pauses ++ sleeps n delay;
        }
    rounds_lem zero attempt delay w = ground (arith, append-nil w.notified, append-nil w.pauses)
    rounds_lem (suc n) attempt delay w = ground (
      arith,
      rounds_lem n (attempt + 1) (options.backoff delay) (failed attempt delay w),
      append_assoc w.notified (attempt ∷ []) (indices n (attempt + 1)),
      append_assoc w.pauses (pause delay ∷ []) (sleeps n (options.backoff delay)),
    )

    abbrev pub history : ℕ → Log
    history n = record {
      calls = n + 1;
      notified = indices n 1;
      pauses = sleeps n options.initial_delay;
    }

    -- If it throws at each of `max_attempts` calls, the run rethrows the exception of the last one,
    -- after that many calls and one sleep less.
    run_rethrows :
        (errors : ℕ → E) (n : ℕ)
        → options.max_attempts ≡ suc n
        → ((i : ℕ) → i ≤ n → script i ≡ throws (errors i))
        → run_with_retry scripted options fresh ≡ (rethrows (errors n), history n)
    unfolding run_with_retry
    run_rethrows errors n e fails =
        subst
          (λ k.
            attempt_loop scripted options k 1 options.initial_delay none fresh
            ≡ (rethrows (errors n), history n))
          (sym e)
          (loop_rethrows errors n 1 options.initial_delay none fresh
              (λ i t. subst (λ k. script k ≡ throws (errors i)) (omega arith) (fails i t))
            ∙ ap (λ (l : Log). (rethrows (errors n), l))
                (rounds_lem n 1 options.initial_delay fresh ∙ ground arith))

    -- With no attempt allowed the callable is not called, and a null exception is rethrown.
    pub run_no_attempt :
        options.max_attempts ≡ 0 → run_with_retry scripted options fresh ≡ (rethrows_null, fresh)
    unfolding run_with_retry attempt_loop
    run_no_attempt e = rw e

  -- The jitter keeps a sleep within a tenth of its delay, if the generator keeps to its range.
  pub apply_jitter_bounds :
      (base : ℕ) (enabled : Bool) (w : Log)
      → offset (base / 10) ≤ 2 * (base / 10)
      → let nap = (apply_jitter scripted base enabled w).0 in
        (base ≤ nap + base / 10) × (nap ≤ base + base / 10)
  unfolding apply_jitter
  apply_jitter_bounds base enabled w h = ground arith
