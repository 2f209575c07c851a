-- ===== src/Security/Names.antt =====
-- `event_type_to_string` and `severity_to_string` of src/security/security_auditor.cpp.
use distributed_data_science.Prelude.{String}
use distributed_data_science.Security.{
  SecurityEventType, login_success, login_failure, unauthorized_access, privilege_escalation,
  data_access, configuration_change, suspicious_activity, brute_force_attempt,
  sql_injection_attempt, xss_attempt, SecuritySeverity, low, medium, high, critical,
}

unfoldable pub event_type_to_string : SecurityEventType → String
event_type_to_string login_success = "LOGIN_SUCCESS"
event_type_to_string login_failure = "LOGIN_FAILURE"
event_type_to_string unauthorized_access = "UNAUTHORIZED_ACCESS"
event_type_to_string privilege_escalation = "PRIVILEGE_ESCALATION"
event_type_to_string data_access = "DATA_ACCESS"
event_type_to_string configuration_change = "CONFIGURATION_CHANGE"
event_type_to_string suspicious_activity = "SUSPICIOUS_ACTIVITY"
event_type_to_string brute_force_attempt = "BRUTE_FORCE_ATTEMPT"
event_type_to_string sql_injection_attempt = "SQL_INJECTION_ATTEMPT"
event_type_to_string xss_attempt = "XSS_ATTEMPT"

unfoldable pub severity_to_string : SecuritySeverity → String
severity_to_string low = "LOW"
severity_to_string medium = "MEDIUM"
severity_to_string high = "HIGH"
severity_to_string critical = "CRITICAL"
