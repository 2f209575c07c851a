-- ===== src/Web/Protection.antt =====
-- What `WebServer` does against abuse (src/web/web_server.cpp): `validate_json` to
-- `log_security_event`, in the monad of `security_mutex_`. The clock's reading in seconds and what
-- `generate_secure_random_string` draws are arguments; the log file is left out.
use distributed_data_science.Prelude.{
  ℕ, suc, ◌-◌, Bool, true, false, not, ◌&&◌, ◌||◌, Option, none, some, String, List, [], ◌∷◌, ltb,
  ◌==◌, if◌then◌else◌, ◌=?◌, string_key,
}
use distributed_data_science.Prelude.Words.{increment}
use distributed_data_science.Prelude.Maps.{lookup, lookup_or, insert}
use distributed_data_science.Prelude.Mutex.{
  M, Outcome, returns, deadlock, ◌>>=◌, ◌>>◌, pure, get, put, locked,
}
use distributed_data_science.Web.Sanitizing.{lower, any_occurs, sql_patterns, xss_patterns}
pub mod Tokens
pub mod Spacing

pub record Protection : Type 0 where
  pub security_enabled : Bool
  pub csrf_tokens : List (String × String)
  pub security_event_counts : List (String × ℕ)
  pub ip_rate_limits : List (String × ℕ)

unfoldable pub count_event : String → Protection → Protection
unfolding insert lookup_or increment
count_event event p = record p {
  security_event_counts =
      insert event (increment (lookup_or 0 event p.security_event_counts)) p.security_event_counts;
}

unfoldable pub log_security_event : String → M Protection (Unit {0})
unfolding count_event
log_security_event event = get >>= λ p.
    if p.security_enabled then locked (get >>= λ q. put (count_event event q)) else pure tt

-- Of `validate_json`, the brackets opened and closed so far: `brace_count` and `bracket_count` are
-- the differences.
pub record Brackets : Type 0 where
  pub braces_opened : ℕ
  pub braces_closed : ℕ
  pub brackets_opened : ℕ
  pub brackets_closed : ℕ

unfoldable pub count_bracket : ℕ → Brackets → Brackets
count_bracket c b =
    if c == b'{'
    then record b { braces_opened = suc b.braces_opened }
    else if c == b'}'
    then record b { braces_closed = suc b.braces_closed }
    else if c == b'['
    then record b { brackets_opened = suc b.brackets_opened }
    else if c == b']'
    then record b { brackets_closed = suc b.brackets_closed }
    else b

-- The loop: whether the last byte was a backslash that escapes, and whether it is in a string.
unfoldable pub scan_json : Bool → Bool → Brackets → List ℕ → Brackets
unfolding count_bracket
scan_json escaped in_string b [] = b
scan_json true in_string b (c ∷ s) = scan_json false in_string b s
scan_json false in_string b (c ∷ s) = elim (c == b'\\') [
  | true ↦ scan_json true in_string b s
  | false ↦ elim (c == b'"') [
    | true ↦ scan_json false (not in_string) b s
    | false ↦ scan_json false in_string (if in_string then b else count_bracket c b) s
  ]
]

unfoldable pub is_balanced : Brackets → Bool
is_balanced b = b.braces_opened == b.braces_closed && b.brackets_opened == b.brackets_closed

unfoldable pub validate_json : List ℕ → M Protection (List ℕ)
unfolding scan_json is_balanced log_security_event
validate_json json = get >>= λ p.
    if p.security_enabled
    then (let none_yet : Brackets = record {
      braces_opened = 0;
      braces_closed = 0;
      brackets_opened = 0;
      brackets_closed = 0;
    } in
        if is_balanced (scan_json false false none_yet json)
        then pure json
        else log_security_event "JSON_VALIDATION_FAILED" >> pure [])
    else pure json

unfoldable pub attempts : String → List String → List ℕ → M Protection Bool
unfolding lower any_occurs log_security_event
attempts event patterns input = get >>= λ p.
    if p.security_enabled && any_occurs patterns (lower input)
    then log_security_event event >> pure true
    else pure false

unfoldable pub is_sql_injection_attempt : List ℕ → M Protection Bool
unfolding attempts
is_sql_injection_attempt input = attempts "SQL_INJECTION_ATTEMPT" sql_patterns input

unfoldable pub is_xss_attempt : List ℕ → M Protection Bool
unfolding attempts
is_xss_attempt input = attempts "XSS_ATTEMPT" xss_patterns input

unfoldable pub generate_csrf_token : String → String → M Protection String
unfolding insert
generate_csrf_token token session_id = locked (
    get >>= λ p.
    put (record p { csrf_tokens = insert session_id token p.csrf_tokens }) >> pure token)

-- The loop over the tokens.
unfoldable pub has_token : String → List (String × String) → Bool
has_token token [] = false
has_token token ((session_id, t) ∷ tokens) = (t =? token) || has_token token tokens

unfoldable pub validate_csrf_token : String → M Protection Bool
unfolding has_token log_security_event
validate_csrf_token token = get >>= λ p.
    if p.security_enabled
    then locked (
        if has_token token p.csrf_tokens
        then pure true
        else log_security_event "CSRF_TOKEN_INVALID" >> pure false)
    else pure true

-- Within the mutex.
unfoldable pub limit_ip : String → ℕ → Protection → Bool × Protection
unfolding lookup insert
limit_ip ip now p =
    let admitted : Protection = record p { ip_rate_limits = insert ip now p.ip_rate_limits } in
    elim (lookup ip p.ip_rate_limits) [
      | none ↦ (false, admitted)
      | some last ↦ if ltb (now - last) 60 then (true, p) else (false, admitted)
    ]

unfoldable pub is_rate_limited_by_ip : String → ℕ → M Protection Bool
unfolding limit_ip
is_rate_limited_by_ip ip now = get >>= λ p.
    if p.security_enabled
    then locked (get >>= λ q. let (limited, q') = limit_ip ip now q in put q' >> pure limited)
    else pure false
