-- ===== src/Security.antt =====
-- `SecurityAuditor` (src/security/security_auditor.cpp, include/security/security_auditor.h): the log of
-- events, the threats by address, and the failed logins, under the mutex `audit_mutex_`, which is not
-- recursive. `std::regex_search` and `std::to_string` are parameters, and a reading of the clock is an
-- argument of each call that makes one. The counters of type `int` are natural numbers without a bound.
use distributed_data_science.Prelude.{
  ℕ, zero, suc, ◌+◌, ◌-◌, ◌*◌, ◌/◌, min, Bool, true, false, not, ◌&&◌, ◌||◌, Option, none, some,
  String, List, [], ◌∷◌, ◌++◌, map, ltb, leb, ◌==◌, if◌then◌else◌, ◌=?◌, string_key, length, drop,
  keep, count_if, concat,
}
use distributed_data_science.Prelude.Maps.{lookup, insert, lookup_or}
use distributed_data_science.Prelude.Mutex.{M, Outcome, ◌>>=◌, ◌>>◌, pure, get, put, locked}
pub mod Deadlock
pub mod Bounds
pub mod Names

pub data SecurityEventType : Type 0 where
  login_success login_failure unauthorized_access privilege_escalation data_access :
      SecurityEventType
  configuration_change suspicious_activity brute_force_attempt : SecurityEventType
  sql_injection_attempt xss_attempt : SecurityEventType

pub data SecuritySeverity : Type 0 where
  low medium high critical : SecuritySeverity

pub record SecurityEvent : Type 0 where
  pub event_type : SecurityEventType
  pub severity : SecuritySeverity
  pub user_id : String
  pub ip_address : String
  pub resource : String
  pub description : String
  pub user_agent : String
  pub timestamp : ℕ
  pub investigated : Bool

pub record ThreatAssessment : Type 0 where
  pub threat_id : String
  pub source_ip : String
  pub risk_score : ℕ
  pub event_pattern : List SecurityEventType
  pub first_seen : ℕ
  pub last_seen : ℕ
  pub event_count : ℕ

pub record SecurityAuditor : Type 0 where
  pub audit_log : List SecurityEvent
  pub threats : List (String × ThreatAssessment)
  pub failed_login_attempts : List (String × ℕ)
  pub enabled : Bool
  pub max_log_size : ℕ
  pub brute_force_threshold : ℕ

abbrev pub Action : Type 0 → Type 0
Action A = M SecurityAuditor A

-- `std::regex_search` with a case-insensitive pattern, and `std::to_string`.
pub record Platform : Type 0 where
  pub regex_search : String → String → Bool
  pub to_string : ℕ → String

abbrev pub injection_patterns : List String
injection_patterns =
    "\\b(SELECT|INSERT|UPDATE|DELETE|DROP|UNION)\\b" ∷ "<script[^>]*>" ∷ "javascript:"
    ∷ "\\'\\s*(OR|AND)\\s*\\'\\s*=\\s*\\'" ∷ []

unfoldable pub any_matches : (String → Bool) → List String → Bool
any_matches p [] = false
any_matches p (x ∷ l) = p x || any_matches p l

unfoldable pub is_injection_attempt : Platform → String → Bool
unfolding any_matches
is_injection_attempt host input =
    any_matches (λ pattern. host.regex_search pattern input) injection_patterns

unfoldable pub severity_score : SecuritySeverity → ℕ
severity_score low = 1
severity_score medium = 3
severity_score high = 7
severity_score critical = 15

abbrev pub new_threat : ThreatAssessment
new_threat = record {
  threat_id = "";
  source_ip = "";
  risk_score = 0;
  event_pattern = [];
  first_seen = 0;
  last_seen = 0;
  event_count = 0;
}

-- `if (threat.threat_id.empty()) { ... }`.
unfoldable pub named_threat : String → ℕ → ThreatAssessment → ThreatAssessment
named_threat ip now threat =
    if threat.threat_id =? ""
    then record threat {
      threat_id = concat "THREAT_" ip;
      source_ip = ip;
      first_seen = now;
      event_count = 0;
      risk_score = 0;
    }
    else threat

unfoldable pub assess : SecurityEvent → ThreatAssessment → ThreatAssessment
unfolding severity_score
assess event threat = record threat {
  last_seen = event.timestamp;
  event_count = threat.event_count + 1;
  event_pattern = threat.event_pattern ++ event.event_type ∷ [];
  risk_score = min 100 (threat.risk_score + severity_score event.severity);
}

unfoldable pub update_threat_assessment : String → SecurityEvent → SecurityAuditor → SecurityAuditor
unfolding lookup_or insert named_threat assess
update_threat_assessment ip event a = record a {
  threats =
      insert ip (assess event (named_threat ip event.timestamp (lookup_or new_threat ip a.threats)))
        a.threats;
}

unfoldable pub is_injection_type : SecurityEventType → Bool
is_injection_type sql_injection_attempt = true
is_injection_type xss_attempt = true
is_injection_type _ = false

unfoldable pub trim_log : SecurityAuditor → SecurityAuditor
trim_log a =
    if ltb a.max_log_size (length a.audit_log)
    then record a { audit_log = drop (length a.audit_log - a.max_log_size) a.audit_log }
    else a

unfoldable pub event_of :
    SecurityEventType → SecuritySeverity → String → String → String → String → ℕ → SecurityEvent
event_of type severity user ip resource description now = record {
  event_type = type;
  severity = severity;
  user_id = user;
  ip_address = ip;
  resource = resource;
  description = description;
  user_agent = "";
  timestamp = now;
  investigated = false;
}

unfoldable pub set_attempts : String → ℕ → Action (Unit {0})
unfolding insert
set_attempts ip n = do
  a ← get
  put (record a { failed_login_attempts = insert ip n a.failed_login_attempts })

module _ (host : Platform) where
  -- Whether `detect_threats` logs another event.
  unfoldable pub raises_injection : SecurityEvent → Bool
  unfolding is_injection_attempt is_injection_type
  raises_injection event =
      (is_injection_attempt host event.description || is_injection_attempt host event.resource)
      && not (is_injection_type event.event_type)

  -- `detect_threats`, with the call of `log_event` that it makes as an argument.
  unfoldable pub detect_threats :
      (SecurityEvent → Action (Unit {0})) → SecurityEvent → Action (Unit {0})
  unfolding update_threat_assessment raises_injection
  detect_threats nested event = do
    a ← get
    put (update_threat_assessment event.ip_address event a)
    if raises_injection event
        then nested (record event {
          event_type = sql_injection_attempt;
          severity = high;
          description = "Potential injection attempt detected";
          user_agent = "";
        })
        else pure tt

  -- The part of `log_event` under the lock.
  unfoldable pub log_body : (SecurityEvent → Action (Unit {0})) → SecurityEvent → Action (Unit {0})
  unfolding detect_threats trim_log
  log_body nested event = do
    a ← get
    put (record a { audit_log = a.audit_log ++ event ∷ [] })
    detect_threats nested event
    b ← get
    put (trim_log b)

  unfoldable pub log_with : (SecurityEvent → Action (Unit {0})) → SecurityEvent → Action (Unit {0})
  unfolding log_body
  log_with nested event = do
    a ← get
    if not a.enabled then pure tt else locked (log_body nested event)

  -- `log_event`. The event that `detect_threats` logs is of a type for which it logs no other, so that
  -- the calls nest twice at most.
  unfoldable pub log_event : SecurityEvent → Action (Unit {0})
  unfolding log_with
  log_event event = log_with (log_with (λ _. pure tt)) event

  -- The clock is read once by each of the two calls of `log_event`.
  unfoldable pub log_login_attempt : String → String → Bool → ℕ → ℕ → Action (Unit {0})
  unfolding log_event set_attempts lookup_or event_of
  log_login_attempt user ip true now later = do
    log_event (event_of login_success low user ip "" "Successful login" now)
    set_attempts ip 0
  log_login_attempt user ip false now later = do
    a ← get
    let attempts = lookup_or 0 ip a.failed_login_attempts + 1
    set_attempts ip attempts
    let brute = leb a.brute_force_threshold attempts
    log_event (
        event_of login_failure (if brute then high else medium) user ip ""
          (concat "Failed login attempt #" (host.to_string attempts)) now)
    if brute
        then log_event
            (event_of brute_force_attempt critical user ip "" "Brute force attack detected" later)
        else pure tt

  unfoldable pub log_unauthorized_access : String → String → String → ℕ → Action (Unit {0})
  unfolding log_event event_of
  log_unauthorized_access user resource ip now = log_event (
      event_of unauthorized_access high user ip resource "Attempted access to restricted resource"
        now)

  unfoldable pub log_configuration_change : String → String → String → ℕ → Action (Unit {0})
  unfolding log_event event_of
  log_configuration_change user config_item ip now =
      log_event
        (event_of configuration_change medium user ip config_item "Configuration item modified" now)

  unfoldable pub log_suspicious_activity : String → String → ℕ → Action (Unit {0})
  unfolding log_event event_of
  log_suspicious_activity description ip now =
      log_event (event_of suspicious_activity medium "unknown" ip "" description now)

unfoldable pub severity_rank : SecuritySeverity → ℕ
severity_rank low = 0
severity_rank medium = 1
severity_rank high = 2
severity_rank critical = 3

unfoldable pub get_events_by_severity : SecuritySeverity → Action (List SecurityEvent)
unfolding severity_rank
get_events_by_severity severity = locked (do
  a ← get
  pure (keep (λ event. severity_rank event.severity == severity_rank severity) a.audit_log))

unfoldable pub get_events_by_ip : String → Action (List SecurityEvent)
get_events_by_ip ip = locked (do a ← get; pure (keep (λ event. event.ip_address =? ip) a.audit_log))

unfoldable pub get_recent_events : ℕ → ℕ → Action (List SecurityEvent)
get_recent_events now hours =
    locked (do a ← get; pure (keep (λ event. leb (now - hours * 3600) event.timestamp) a.audit_log))

unfoldable pub get_events_count_by_severity : SecuritySeverity → Action ℕ
unfolding severity_rank
get_events_count_by_severity severity = locked (do
  a ← get
  pure (count_if (λ event. severity_rank event.severity == severity_rank severity) a.audit_log))

unfoldable pub is_brute_force_attack : String → Action Bool
unfolding lookup
is_brute_force_attack ip = do
  a ← get
  pure (elim (lookup ip a.failed_login_attempts) [
    | none ↦ false
    | some attempts ↦ leb a.brute_force_threshold attempts
  ])

unfoldable pub get_suspicious_ips : Action (List String)
get_suspicious_ips = do
  a ← get
  pure (
      map (λ entry. entry.0)
        (keep (λ entry. leb (a.brute_force_threshold / 2) entry.1) a.failed_login_attempts))
