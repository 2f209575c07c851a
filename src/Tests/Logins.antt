-- ===== src/Tests/Logins.antt =====
-- Runs of the theorems on tokens, pages and errors of the web server.
use Prim.Native.String.{len}
use distributed_data_science.Prelude.{
  ℕ, ◌≡◌, refl, true, false, none, some, [], ◌∷◌, ◌==◌, ◌=?◌, if◌then◌else◌, string_key, concat,
  arith, codes,
}
use text.Mathlib.TextEquality.{eq_iff}
use distributed_data_science.Prelude.Mutex.{deadlock, pure}
use distributed_data_science.Web.Texts.{find_from, rest_from, substr}
use distributed_data_science.Web.Errors.{Errors, HttpResponse, Moment, handle_client_error}
use distributed_data_science.Web.Errors.Outcomes.{errors_outcome}
use distributed_data_science.Web.Login.{
  Site, Settings, Handler, extract_session_id, two_values, quoted_from, require_authentication,
  require_permission,
}
use distributed_data_science.Web.Login.Pages.{
  opened, new_session, guards_outcome, handle_login-outcome,
}
use distributed_data_science.Web.Login.Live.{live, used, may}
use distributed_data_science.Web.ResponseCache.Queries.{HttpRequest}
use distributed_data_science.Web.Accounts.{User, authenticate_user}
use distributed_data_science.Web.Tokens.{Issuer, generate_jwt_token, validate_jwt_token, answers}
use distributed_data_science.Web.Tokens.RoundTrip.{validate-generate, validate-forged}

abbrev errors : Errors
errors = record {
  server_healthy = true;
  consecutive_errors = 0;
  total_errors = 0;
  error_counts = [];
  error_log = [];
  auto_recovery_enabled = true;
  last_health_check = 0;
  health_check_interval = 30;
  thread_pool_size = 8;
  cached = [];
  max_cache_size = 10;
  security_enabled = true;
}

-- A hash by length, and two numbers that can be written.
abbrev issuer : Issuer
issuer = record {
  hashing = record { hash = λ s. len s; to_string = λ n. if n == 5 then "5" else "900" };
  stoll = λ s. if s =? "5" then some 5 else if s =? "900" then some 900 else none;
  jwt_secret = "secret";
  token_expiry = 100;
}

validate-generate_example :
    validate_jwt_token issuer 105 (generate_jwt_token issuer "ann" ("user" ∷ []) 5)
    ≡ answers true (some "ann")
validate-generate_example =
    validate-generate issuer "ann" ("user" ∷ []) 5 105 (ground arith) (ground arith) (ground arith)
      (ground arith) (ground arith) refl

validate-forged_example :
    validate_jwt_token issuer 950 (generate_jwt_token issuer (concat "bob" (concat "|" "900")) [] 5)
    ≡ answers true (some "bob")
validate-forged_example =
    validate-forged issuer "bob" "900" [] 5 900 950 (ground arith) (ground arith) (ground arith)
      (ground arith) (ground arith) tt refl

abbrev ann : User
ann = record {
  username = "ann";
  password_hash = "5";
  roles = "user" ∷ [];
  created_at = 0;
  last_login = 0;
  failed_attempts = 0;
  lockout_until = 0;
  is_active = true;
}

abbrev site : Site
site = record {
  sessions = record {
    entries = [];
    stats = record {
      total_sessions = 0;
      active_sessions = 0;
      expired_sessions = 0;
      invalidated_sessions = 0;
    };
    session_timeout = 60;
  };
  accounts = record {
    registered_users = ("ann", ann) ∷ [];
    user_roles = ("ann", "user" ∷ []) ∷ [];
    role_permissions = ("user", "read" ∷ []) ∷ [];
    stats = record {
      locked_out_attempts = 0;
      successful_logins = 0;
      failed_logins = 0;
      registered = 1;
    };
    max_failed_attempts = 3;
    lockout_duration = 60;
  };
  errors = errors;
}

abbrev settings : Settings
settings = record {
  issuer = issuer;
  session_cookie_name = "session_id";
  auth_cookie_name = "auth_token";
}

abbrev at : ℕ → Moment
at t = record {
  now = t;
  timestamp = codes "t";
  get_status_text = λ code. codes "Status";
  to_string = λ n. codes "n";
}

abbrev login : HttpRequest
login = record {
  method = "POST";
  path = "/login";
  body = "{\"username\":\"ann\",\"password\":\"x\"}";
  headers = [];
  query_params = [];
}

abbrev visit : HttpRequest
visit = record {
  method = "GET";
  path = "/profile";
  body = "";
  headers = ("cookie", "session_id=s1") ∷ [];
  query_params = [];
}

abbrev blank : HttpResponse
blank = record { status_code = 200; status_text = []; headers = []; body = [] }

abbrev profile : Handler
profile req res = pure (record res { body = codes "profile" })

handle_login-outcome_example :
    require_authentication settings
      (at 65)
      profile
      visit
      blank
      false
      (opened settings (at 5) "s1" login blank "ann" "x" site)
    ≡ profile visit blank false (
        used "s1" 65
          (new_session settings (at 5) "s1" login blank "ann")
          (opened settings (at 5) "s1" login blank "ann" "x" site))
unfolding two_values find_from quoted_from rest_from substr authenticate_user
handle_login-outcome_example =
    (handle_login-outcome settings (at 5) "s1" login blank "ann" "x" site profile (at 65) visit
      blank false refl refl (ground (arith, eq_iff "ann" "")) (ground (arith, eq_iff "x" "")) refl
      (ground (arith, eq_iff "s1" "")) (ground arith) refl (omega arith)).1

abbrev signed_in : Site
signed_in = opened settings (at 5) "s1" login blank "ann" "x" site

guards_outcome_example :
    require_permission settings (at 65) "read" profile visit blank false signed_in
    ≡ profile visit blank false
        (used "s1" 65 (new_session settings (at 5) "s1" login blank "ann") signed_in)
unfolding live extract_session_id find_from substr rest_from opened new_session may
guards_outcome_example =
    (guards_outcome settings (at 65) profile visit blank "read" false signed_in).1

errors_outcome_example :
    handle_client_error (at 5) 404 (codes "Not found") blank false errors ≡ deadlock
errors_outcome_example =
    (errors_outcome (at 5) (pure tt) "CLIENT_ERROR" (codes "Not found") [] 404 blank false errors
      (omega arith)).2
