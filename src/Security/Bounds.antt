-- ===== src/Security/Bounds.antt =====
-- The size of the log, the risk scores, and the failed logins.
use distributed_data_science.Prelude.{
  ℕ, ◌+◌, ◌-◌, ◌≤◌, ◌≡◌, refl, sym, subst, ap, ◌∙◌, Bool, true, false, some, String, List, [], ◌∷◌,
  ◌++◌, arith, inl, inr, leb, if◌then◌else◌, string_key, Bool-cases, length, length-drop, concat,
}
use distributed_data_science.Prelude.Maps.{
  lookup, insert, lookup_or, lookup_or-insert, lookup-insert_self,
}
use distributed_data_science.Prelude.Mutex.{Outcome, returns, deadlock, ◌>>◌, pure}
use distributed_data_science.Security.{
  SecurityEventType, SecuritySeverity, Action, low, medium, high, critical, login_failure,
  login_success, brute_force_attempt, SecurityEvent, ThreatAssessment, SecurityAuditor, Platform,
  new_threat, named_threat, assess, update_threat_assessment, trim_log, is_injection_attempt,
  raises_injection, log_event, event_of, set_attempts, log_login_attempt, is_brute_force_attack,
}
use distributed_data_science.Security.Deadlock.{record_event, log_event_cases}

-- The log has at most `max_log_size_` events, and no threat a risk above 100.
abbrev pub IsBounded : SecurityAuditor → Type 0
IsBounded a =
    (length a.audit_log ≤ a.max_log_size)
    × ((ip : String) → (lookup_or new_threat ip a.threats).risk_score ≤ 100)

trim_log-bound :
    (a : SecurityAuditor)
    → (length (trim_log a).audit_log ≤ a.max_log_size)
      × ((trim_log a).threats ≡ a.threats)
      × ((trim_log a).max_log_size ≡ a.max_log_size)
unfolding trim_log
trim_log-bound a = ground (arith, length-drop (length a.audit_log - a.max_log_size) a.audit_log)

assess-risk : (event : SecurityEvent) (t : ThreatAssessment) → (assess event t).risk_score ≤ 100
unfolding assess
assess-risk event t = omega arith

inserted_risk :
    (ip k : String) (t : ThreatAssessment) (m : List (String × ThreatAssessment))
    → t.risk_score ≤ 100
    → (lookup_or new_threat ip m).risk_score ≤ 100
    → (lookup_or new_threat ip (insert k t m)).risk_score ≤ 100
inserted_risk ip k t m a b = ground (arith, lookup_or-insert new_threat k ip t m)

record_event-IsBounded :
    (event : SecurityEvent) (a : SecurityAuditor)
    → ((ip : String) → (lookup_or new_threat ip a.threats).risk_score ≤ 100)
    → IsBounded (record_event event a)
unfolding record_event update_threat_assessment
record_event-IsBounded event a h =
    let u =
      update_threat_assessment event.ip_address event
        (record a { audit_log = a.audit_log ++ event ∷ [] }) in
    let t =
      named_threat event.ip_address event.timestamp
        (lookup_or new_threat event.ip_address a.threats) in
    let (short, same, size) = trim_log-bound u in
    (
      subst (λ m. length (trim_log u).audit_log ≤ m) (sym size) short,
      λ ip.
          subst (λ t. (lookup_or new_threat ip t).risk_score ≤ 100) (sym same)
            (inserted_risk ip event.ip_address (assess event t) a.threats (assess-risk event t)
              (h ip)),
    )

-- Every event that is logged leaves the log within `max_log_size_` and every risk score within 100; a
-- call of `log_event` that does not record its event leaves the auditor as it was or deadlocks.
log_event-IsBounded :
    (host : Platform) (event : SecurityEvent) (a : SecurityAuditor)
    → IsBounded a
    → (raises_injection host event ≡ false
        → (a' : SecurityAuditor) × ((log_event host event false a ≡ returns (tt, a'))
            × IsBounded a'))
      × (a.enabled ≡ true
          → raises_injection host event ≡ true
          → log_event host event false a ≡ deadlock)
log_event-IsBounded host event a h =
    let (off, injection, plain) = log_event_cases host event a in
    (
      (λ no. elim (Bool-cases a.enabled) [
        | inl on ↦ (record_event event a, (plain on no, record_event-IsBounded event a h.1))
        | inr e ↦ (a, (off e, h))
      ]),
      injection,
    )

-- Nothing that a login writes looks like an injection.
abbrev pub IsQuiet : Platform → Type 0
IsQuiet host =
    (is_injection_attempt host "" ≡ false)
    × (is_injection_attempt host "Successful login" ≡ false)
    × (is_injection_attempt host "Brute force attack detected" ≡ false)
    × ((n : ℕ)
        → is_injection_attempt host (concat "Failed login attempt #" (host.to_string n)) ≡ false)

record_event-keeps :
    (event : SecurityEvent) (a : SecurityAuditor)
    → ((record_event event a).failed_login_attempts ≡ a.failed_login_attempts)
      × ((record_event event a).brute_force_threshold ≡ a.brute_force_threshold)
unfolding record_event update_threat_assessment trim_log
record_event-keeps event a = ground arith

quiet_event :
    (host : Platform) (event : SecurityEvent) (a : SecurityAuditor)
    → raises_injection host event ≡ false
    → (a' : SecurityAuditor) × ((log_event host event false a ≡ returns (tt, a'))
        × ((a'.failed_login_attempts ≡ a.failed_login_attempts)
            × (a'.brute_force_threshold ≡ a.brute_force_threshold)))
quiet_event host event a clean =
    let (off, _, plain) = log_event_cases host event a in
    elim (Bool-cases a.enabled) [
      | inl on ↦ (record_event event a, (plain on clean, record_event-keeps event a))
      | inr e ↦ (a, (off e, (refl, refl)))
    ]

attack_known :
    (ip : String) (n limit : ℕ) (a : SecurityAuditor) (m : List (String × ℕ))
    → a.failed_login_attempts ≡ insert ip n m
    → a.brute_force_threshold ≡ limit
    → is_brute_force_attack ip false a ≡ returns (leb limit n, a)
unfolding is_brute_force_attack
attack_known ip n limit a m e l =
    let found : lookup ip a.failed_login_attempts ≡ some n =
      ap (lookup ip) e ∙ lookup-insert_self ip n m in
    rw (found, l) refl

quiet_text :
    (host : Platform) (type : SecurityEventType) (severity : SecuritySeverity)
    → (user ip text : String) (now : ℕ) → is_injection_attempt host "" ≡ false
    → is_injection_attempt host text ≡ false
    → raises_injection host (event_of type severity user ip "" text now) ≡ false
unfolding raises_injection event_of
quiet_text host type severity user ip text now e f = rw (e, f) refl

then_returns :
    (m k : Action (Unit {0})) (a b : SecurityAuditor)
    → m false a ≡ returns (tt, b)
    → (m >> k) false a ≡ k false b
then_returns m k a b e =
    ap
      (λ (o : Outcome (Unit {0} × SecurityAuditor)). elim o [
        | returns (_, t) ↦ k false t
        | deadlock ↦ deadlock
      ])
      e

-- A failed login from an address counts one more failure there, and the address is under attack from
-- the threshold on; a successful one counts from zero again. Both return if nothing that is logged
-- looks like an injection.
log_login_attempt-is_brute_force_attack :
    (host : Platform) (user ip : String) (now later : ℕ) (a : SecurityAuditor)
    → IsQuiet host
    → let attempts = lookup_or 0 ip a.failed_login_attempts + 1 in
      ((a' : SecurityAuditor) × ((log_login_attempt host user ip false now later false a
            ≡ returns (tt, a'))
          × (is_brute_force_attack ip false a'
              ≡ returns (leb a.brute_force_threshold attempts, a'))))
      × ((a' : SecurityAuditor) × ((log_login_attempt host user ip true now later false a
              ≡ returns (tt, a'))
            × (is_brute_force_attack ip false a' ≡ returns (leb a.brute_force_threshold 0, a'))))
unfolding log_login_attempt set_attempts is_brute_force_attack
log_login_attempt-is_brute_force_attack host user ip now later a (empty, success, brute, failure) =
    let limit = a.brute_force_threshold in
    let n = lookup_or 0 ip a.failed_login_attempts + 1 in
    let a1 = record a { failed_login_attempts = insert ip n a.failed_login_attempts } in
    let severity = if leb limit n then high else medium in
    let first =
      event_of login_failure severity user ip ""
        (concat "Failed login attempt #" (host.to_string n)) now in
    let second =
      event_of brute_force_attempt critical user ip "" "Brute force attack detected" later in
    let rest : Action (Unit {0}) = if leb limit n then log_event host second else pure tt in
    let login = event_of login_success low user ip "" "Successful login" now in
    let (b, (e, (f, t))) =
      quiet_event host first a1
        (quiet_text host login_failure severity user ip _ now empty (failure n)) in
    let (c, (g, (f', t'))) =
      quiet_event host second b
        (quiet_text host brute_force_attempt critical user ip _ later empty brute) in
    let (d, (h, (f'', t''))) =
      quiet_event host login a (quiet_text host login_success low user ip _ now empty success) in
    let chosen : Bool → Outcome (Unit {0} × SecurityAuditor) =
      λ x. (if x then log_event host second else pure tt) false b in
    (
      elim (Bool-cases (leb limit n)) [
        | inl over ↦ (
          c,
          (
            then_returns (log_event host first) rest a1 b e ∙ ap chosen over ∙ g,
            attack_known ip n limit c a.failed_login_attempts (f' ∙ f) (t' ∙ t),
          ),
        )
        | inr under ↦ (
          b,
          (
            then_returns (log_event host first) rest a1 b e ∙ ap chosen under,
            attack_known ip n limit b a.failed_login_attempts f t,
          ),
        )
      ],
      (
        record d { failed_login_attempts = insert ip 0 d.failed_login_attempts },
        (
          then_returns (log_event host login) (set_attempts ip 0) a d h,
          attack_known ip 0 limit _ d.failed_login_attempts refl t'',
        ),
      ),
    )
