-- ===== src/Web/Sessions/Counters.antt =====
-- The counters of the sessions, over any sequence of calls.
use distributed_data_science.Prelude.{
  ℕ, zero, suc, ◌+◌, ◌%◌, ◌^◌, ◌≡◌, refl, sym, ap, ◌∙◌, false, some, String, List, [], ◌∷◌, arith,
  inl, inr, string_key, Bool-cases, Option-cases, length,
}
use distributed_data_science.Prelude.Maps.{
  lookup, insert, erase, has, Distinct, has-lookup, length-insert, length-erase, insert-Distinct,
  erase-Distinct,
}
use distributed_data_science.Prelude.Words.{increment, decrement}
use distributed_data_science.Web.Sessions.{
  Session, SessionStats, Sessions, create_session, is_expired, count_expired, validate_session,
  invalidate_session, update_session_activity, sweep, cleanup_expired_sessions, Call, creates,
  validates, invalidates, touches, sweeps, step, run,
}

-- Sessions are added up: those created are those there and those gone.
abbrev pub IsBalanced : SessionStats → Type 0
IsBalanced stats =
    stats.total_sessions
    ≡ (stats.active_sessions + stats.expired_sessions + stats.invalidated_sessions) % 2 ^ 64

count_expired-IsBalanced :
    (stats : SessionStats) → IsBalanced stats → IsBalanced (count_expired stats)
unfolding count_expired increment decrement
count_expired-IsBalanced stats h = omega (arith, h)

sweep-IsBalanced :
    (now timeout : ℕ) (l : List (String × Session)) (stats : SessionStats)
    → IsBalanced stats
    → IsBalanced (sweep now timeout l stats).1
unfolding sweep
sweep-IsBalanced now timeout [] stats h = h
sweep-IsBalanced now timeout ((k, v) ∷ l) stats h = elim (Bool-cases (is_expired now timeout v)) [
  | inl e ↦
      rw (e, sweep)
        (sweep-IsBalanced now timeout l (count_expired stats) (count_expired-IsBalanced stats h))
  | inr e ↦ rw (e, sweep) (sweep-IsBalanced now timeout l stats h)
]

step-IsBalanced : (c : Call) (s : Sessions) → IsBalanced s.stats → IsBalanced (step c s).stats
unfolding step create_session increment decrement update_session_activity invalidate_session
    validate_session cleanup_expired_sessions
step-IsBalanced (creates username user_agent now k) s h = omega (arith, h)
step-IsBalanced (validates k now) s h = ground (arith, h, count_expired-IsBalanced s.stats h)
step-IsBalanced (invalidates k) s h = elim (Option-cases (lookup k s.entries)) [
  | inl e ↦ rw (e, invalidate_session) h
  | inr (v, e) ↦ rw (e, invalidate_session) (omega (arith, h))
]
step-IsBalanced (touches k now) s h = ground (arith, h)
step-IsBalanced (sweeps now) s h = sweep-IsBalanced now s.session_timeout s.entries s.stats h

-- Whatever the calls, every session created is counted once among the active, the expired and the
-- invalidated ones.
run-IsBalanced :
    (calls : List Call) (s : Sessions) → IsBalanced s.stats → IsBalanced (run calls s).stats
unfolding run
run-IsBalanced [] s h = h
run-IsBalanced (c ∷ calls) s h = run-IsBalanced calls (step c s) (step-IsBalanced c s h)

-- `session_stats_["active_sessions"]` is the number of sessions there are.
abbrev pub IsNumbered : Sessions → Type 0
IsNumbered s = Distinct s.entries × (s.stats.active_sessions ≡ length s.entries % 2 ^ 64)

-- No session is created under an identifier that is in use.
abbrev pub IsFresh : List Call → Sessions → Type 0
IsFresh [] s = Unit
IsFresh (creates username user_agent now k ∷ calls) s =
    (has k s.entries ≡ false) × IsFresh calls (step (creates username user_agent now k) s)
IsFresh (c ∷ calls) s = IsFresh calls (step c s)

sweep-IsNumbered :
    (now timeout : ℕ) (l : List (String × Session)) (stats : SessionStats) (kept : ℕ)
    → stats.active_sessions ≡ (length l + kept) % 2 ^ 64
    → let (l', stats') = sweep now timeout l stats in
      stats'.active_sessions ≡ (length l' + kept) % 2 ^ 64
unfolding sweep count_expired decrement
sweep-IsNumbered now timeout [] stats kept h = h
sweep-IsNumbered now timeout ((k, v) ∷ l) stats kept h =
    elim (Bool-cases (is_expired now timeout v)) [
      | inl e ↦
          rw (e, sweep)
            (sweep-IsNumbered now timeout l (count_expired stats) kept (omega (arith, h)))
      | inr e ↦
          rw (e, sweep)
            (ground (arith, sweep-IsNumbered now timeout l stats (suc kept) (omega (arith, h))))
    ]

has-sweep :
    (now timeout : ℕ) (k : String) (l : List (String × Session)) (stats : SessionStats)
    → has k l ≡ false
    → has k (sweep now timeout l stats).0 ≡ false
unfolding sweep has
has-sweep now timeout k [] stats h = refl
has-sweep now timeout k ((j, v) ∷ l) stats h =
    ground (arith, has-sweep now timeout k l stats, has-sweep now timeout k l (count_expired stats))

sweep-Distinct :
    (now timeout : ℕ) (l : List (String × Session)) (stats : SessionStats)
    → Distinct l
    → Distinct (sweep now timeout l stats).0
unfolding sweep has
sweep-Distinct now timeout [] stats d = tt
sweep-Distinct now timeout ((k, v) ∷ l) stats d = ground (
  arith,
  sweep-Distinct now timeout l stats d.1,
  sweep-Distinct now timeout l (count_expired stats) d.1,
  has-sweep now timeout k l stats d.0,
  has-sweep now timeout k l (count_expired stats) d.0,
)

erase-IsNumbered :
    (k : String) (v : Session) (l : List (String × Session)) (active : ℕ)
    → lookup k l ≡ some v
    → Distinct l
    → active ≡ length l % 2 ^ 64
    → decrement active ≡ length (erase k l) % 2 ^ 64
unfolding decrement
erase-IsNumbered k v l active e d h = ground (arith, has-lookup k l, length-erase k l d)

length-insert_old :
    (k : String) (v v' : Session) (l : List (String × Session))
    → lookup k l ≡ some v
    → length (insert k v' l) ≡ length l
length-insert_old k v v' l e = ground (arith, has-lookup k l, length-insert k v' l)

insert-IsNumbered :
    (k : String) (v : Session) (l : List (String × Session)) (active : ℕ)
    → has k l ≡ false
    → active ≡ length l % 2 ^ 64
    → increment active ≡ length (insert k v l) % 2 ^ 64
unfolding increment
insert-IsNumbered k v l active f h = ground (arith, length-insert k v l)

step-IsNumbered :
    (c : Call) (s : Sessions) → IsFresh (c ∷ []) s → IsNumbered s → IsNumbered (step c s)
unfolding step create_session update_session_activity invalidate_session validate_session
    cleanup_expired_sessions count_expired
step-IsNumbered (creates username user_agent now k) s f (d, h) =
    (insert-Distinct k _ s.entries d, insert-IsNumbered k _ s.entries _ f.0 h)
step-IsNumbered (validates k now) s f (d, h) = elim (Option-cases (lookup k s.entries)) [
  | inl e ↦ rw (e, step, validate_session) (d, h)
  | inr (v, e) ↦ elim (Bool-cases (is_expired now s.session_timeout v)) [
    | inl x ↦
        rw (e, x, step, validate_session)
          (erase-Distinct k s.entries d, erase-IsNumbered k v s.entries _ e d h)
    | inr x ↦
        rw (e, x, step, validate_session)
          (
            insert-Distinct k _ s.entries d,
            h ∙ ap (λ n. n % 2 ^ 64) (sym (length-insert_old k v _ s.entries e)),
          )
  ]
]
step-IsNumbered (invalidates k) s f (d, h) = elim (Option-cases (lookup k s.entries)) [
  | inl e ↦ rw (e, step, invalidate_session) (d, h)
  | inr (v, e) ↦
      rw (e, step, invalidate_session)
        (erase-Distinct k s.entries d, erase-IsNumbered k v s.entries _ e d h)
]
step-IsNumbered (touches k now) s f (d, h) = elim (Option-cases (lookup k s.entries)) [
  | inl e ↦ rw (e, step, update_session_activity) (d, h)
  | inr (v, e) ↦
      rw (e, step, update_session_activity)
        (
          insert-Distinct k _ s.entries d,
          h ∙ ap (λ n. n % 2 ^ 64) (sym (length-insert_old k v _ s.entries e)),
        )
]
step-IsNumbered (sweeps now) s f (d, h) = (
  sweep-Distinct now s.session_timeout s.entries s.stats d,
  ground (arith, sweep-IsNumbered now s.session_timeout s.entries s.stats zero),
)

-- With one entry for an identifier and no session created under an identifier that is in use, the
-- counter of the active sessions is their number modulo 2^64 after any calls.
run-IsNumbered :
    (calls : List Call) (s : Sessions) → IsFresh calls s → IsNumbered s → IsNumbered (run calls s)
unfolding run
run-IsNumbered [] s f h = h
run-IsNumbered (creates username user_agent now k ∷ calls) s f h =
    run-IsNumbered calls _ f.1 (step-IsNumbered (creates username user_agent now k) s (f.0, tt) h)
run-IsNumbered (validates k now ∷ calls) s f h =
    run-IsNumbered calls _ f (step-IsNumbered (validates k now) s tt h)
run-IsNumbered (invalidates k ∷ calls) s f h =
    run-IsNumbered calls _ f (step-IsNumbered (invalidates k) s tt h)
run-IsNumbered (touches k now ∷ calls) s f h =
    run-IsNumbered calls _ f (step-IsNumbered (touches k now) s tt h)
run-IsNumbered (sweeps now ∷ calls) s f h =
    run-IsNumbered calls _ f (step-IsNumbered (sweeps now) s tt h)
