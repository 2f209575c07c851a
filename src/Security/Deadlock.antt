-- ===== src/Security/Deadlock.antt =====
-- Which calls of the auditor return (src/security/security_auditor.cpp).
use distributed_data_science.Prelude.{
  ℕ, ap, ◌+◌, ◌-◌, ◌≡◌, refl, Bool, true, false, not, ◌&&◌, ◌||◌, String, List, [], ◌∷◌, ◌++◌,
  arith, inl, inr, Bool-cases, min, length, drop, if◌then◌else◌, ◌=?◌, string_key, concat,
  length-append, ltb,
}
use distributed_data_science.Prelude.Maps.{lookup_or, insert}
use distributed_data_science.Prelude.Mutex.{returns, deadlock}
use distributed_data_science.Security.{
  SecurityEventType, login_success, login_failure, unauthorized_access, privilege_escalation,
  data_access, configuration_change, suspicious_activity, brute_force_attempt,
  sql_injection_attempt, xss_attempt, SecuritySeverity, low, medium, high, critical, SecurityEvent,
  ThreatAssessment, SecurityAuditor, Platform, update_threat_assessment, named_threat, assess,
  severity_score, new_threat, trim_log, raises_injection, is_injection_attempt, is_injection_type,
  any_matches, detect_threats, log_body, log_with, log_event,
}

-- What a logged event makes of the threat of its address, with what it was before.
unfoldable pub weight : SecuritySeverity → ℕ
weight low = 1
weight medium = 3
weight high = 7
weight critical = 15

unfoldable pub first_threat : SecurityEvent → ThreatAssessment → ThreatAssessment
unfolding weight
first_threat event old = record {
  threat_id = concat "THREAT_" event.ip_address;
  source_ip = event.ip_address;
  risk_score = weight event.severity;
  event_pattern = old.event_pattern ++ event.event_type ∷ [];
  first_seen = event.timestamp;
  last_seen = event.timestamp;
  event_count = 1;
}

unfoldable pub next_threat : SecurityEvent → ThreatAssessment → ThreatAssessment
unfolding weight first_threat
next_threat event old = if old.threat_id =? "" then first_threat event old else record {
  threat_id = old.threat_id;
  source_ip = old.source_ip;
  risk_score = min 100 (old.risk_score + weight event.severity);
  event_pattern = old.event_pattern ++ event.event_type ∷ [];
  first_seen = old.first_seen;
  last_seen = event.timestamp;
  event_count = old.event_count + 1;
}

-- The auditor with the event at the end of its log, of which the last `max_log_size_` are kept, and with
-- the threat of its address.
unfoldable pub with_event : SecurityEvent → SecurityAuditor → SecurityAuditor
unfolding insert lookup_or next_threat
with_event event a = record {
  audit_log = drop (length a.audit_log + 1 - a.max_log_size) (a.audit_log ++ event ∷ []);
  threats =
      insert event.ip_address
        (next_threat event (
          lookup_or
            (record {
              threat_id = "";
              source_ip = "";
              risk_score = 0;
              event_pattern = [];
              first_seen = 0;
              last_seen = 0;
              event_count = 0;
            })
            event.ip_address a.threats))
        a.threats;
  failed_login_attempts = a.failed_login_attempts;
  enabled = a.enabled;
  max_log_size = a.max_log_size;
  brute_force_threshold = a.brute_force_threshold;
}

unfoldable pub record_event : SecurityEvent → SecurityAuditor → SecurityAuditor
record_event event a = trim_log (
    update_threat_assessment event.ip_address event
      (record a { audit_log = a.audit_log ++ event ∷ [] }))

-- An event that reports an injection.
unfoldable pub reports_injection : SecurityEventType → Bool
reports_injection sql_injection_attempt = true
reports_injection xss_attempt = true
reports_injection _ = false

is_injection_type-reports : (t : SecurityEventType) → is_injection_type t ≡ reports_injection t
unfolding is_injection_type reports_injection
is_injection_type-reports login_success = refl
is_injection_type-reports login_failure = refl
is_injection_type-reports unauthorized_access = refl
is_injection_type-reports privilege_escalation = refl
is_injection_type-reports data_access = refl
is_injection_type-reports configuration_change = refl
is_injection_type-reports suspicious_activity = refl
is_injection_type-reports brute_force_attempt = refl
is_injection_type-reports sql_injection_attempt = refl
is_injection_type-reports xss_attempt = refl

severity_score-weight :
    (s : SecuritySeverity)
    → (severity_score s ≡ weight s) × (min 100 (0 + severity_score s) ≡ weight s)
unfolding severity_score weight
severity_score-weight low = (refl, refl)
severity_score-weight medium = (refl, refl)
severity_score-weight high = (refl, refl)
severity_score-weight critical = (refl, refl)

next_threat-assess :
    (event : SecurityEvent) (old : ThreatAssessment)
    → assess event (named_threat event.ip_address event.timestamp old) ≡ next_threat event old
unfolding assess named_threat next_threat first_threat
next_threat-assess event old =
    let (score, bounded) = severity_score-weight event.severity in
    elim (Bool-cases (old.threat_id =? "")) [
      | inl new ↦ simp new (ap (λ n. record (first_threat event old) { risk_score = n }) bounded)
      | inr known ↦ simp (known, score) refl
    ]

trimmed :
    (limit : ℕ) (log : List SecurityEvent) (event : SecurityEvent)
    → (if ltb limit (length (log ++ event ∷ []))
        then drop (length (log ++ event ∷ []) - limit) (log ++ event ∷ [])
        else log ++ event ∷ [])
      ≡ drop (length log + 1 - limit) (log ++ event ∷ [])
trimmed limit log event = elim (Bool-cases (ltb limit (length (log ++ event ∷ [])))) [
  | inl over ↦ rw (over, length-append log (event ∷ [])) refl
  | inr fits ↦
      let none_gone : length log + 1 - limit ≡ 0 = ground (arith, length-append log (event ∷ [])) in
      rw (fits, none_gone) refl
]

module _ (host : Platform) where
  -- One of the four patterns is found.
  unfoldable pub has_pattern : String → Bool
  has_pattern text =
      host.regex_search "\\b(SELECT|INSERT|UPDATE|DELETE|DROP|UNION)\\b" text
      || host.regex_search "<script[^>]*>" text
      || host.regex_search "javascript:" text
      || host.regex_search "\\'\\s*(OR|AND)\\s*\\'\\s*=\\s*\\'" text

  raises_injection-has_pattern :
      (event : SecurityEvent)
      → raises_injection host event ≡ (
          (has_pattern event.description || has_pattern event.resource)
          && not (reports_injection event.event_type))
  unfolding raises_injection has_pattern is_injection_attempt any_matches is_injection_type
      reports_injection
  raises_injection-has_pattern event = ground (arith, is_injection_type-reports event.event_type)

  recorded :
      (event : SecurityEvent) (a : SecurityAuditor)
      → trim_log (
          update_threat_assessment event.ip_address event
            (record a { audit_log = a.audit_log ++ event ∷ [] }))
        ≡ with_event event a
  unfolding trim_log update_threat_assessment with_event
  recorded event a =
      let log = trimmed a.max_log_size a.audit_log event in
      let threat = next_threat-assess event (lookup_or new_threat event.ip_address a.threats) in
      ground (arith, log, threat)

  -- What `log_event` does with the mutex free: nothing where auditing is off; a deadlock where one of the
  -- four patterns is found in the event's description or resource and the event is not itself one that
  -- reports an injection; and otherwise the event is put at the end of the log, of which the last
  -- `max_log_size_` are kept, and the threat of its address gets its time, one event more, its type and
  -- its severity, up to a risk of 100.
  pub log_event_outcome :
      (event : SecurityEvent) (a : SecurityAuditor)
      → log_event host event false a ≡ (
          if not a.enabled
          then returns (tt, a)
          else if (has_pattern event.description || has_pattern event.resource)
              && not (reports_injection event.event_type)
          then deadlock
          else returns (tt, with_event event a))
  unfolding log_event log_with log_body detect_threats
  log_event_outcome event a = ground (arith, recorded event a, raises_injection-has_pattern event)

  -- The same by the functions of the code.
  pub log_event_cases :
      (event : SecurityEvent) (a : SecurityAuditor)
      → (a.enabled ≡ false → log_event host event false a ≡ returns (tt, a))
        × (a.enabled ≡ true
            → raises_injection host event ≡ true
            → log_event host event false a ≡ deadlock)
        × (a.enabled ≡ true
            → raises_injection host event ≡ false
            → log_event host event false a ≡ returns (tt, record_event event a))
  unfolding log_event log_with log_body detect_threats record_event update_threat_assessment
  log_event_cases event a = (
    (λ off. rw off refl),
    (λ on. λ found. rw (on, found) refl),
    (λ on. λ clean. rw (on, clean) refl),
  )

  -- `log_event` is what its text says, with the call of `detect_threats` being `log_event` again:
  -- whoever holds the mutex, and whatever the state.
  pub log_event-recursive :
      (event : SecurityEvent) (held : Bool) (a : SecurityAuditor)
      → log_event host event held a ≡ log_with host (log_event host) event held a
  unfolding log_event log_with log_body detect_threats
  log_event-recursive event true a = ground arith
  log_event-recursive event false a = elim (Bool-cases a.enabled) [
    | inl on ↦ elim (Bool-cases (raises_injection host event)) [
      | inl found ↦ rw (on, found) refl
      | inr clean ↦ rw (on, clean) refl
    ]
    | inr off ↦ rw off refl
  ]
