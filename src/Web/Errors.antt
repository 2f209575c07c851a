-- ===== src/Web/Errors.antt =====
-- Errors and recovery of `WebServer` (src/web/web_server.cpp): `handle_server_error` to
-- `restart_failed_components`. What locks `error_mutex_` is in the monad of that mutex. The clock's
-- reading and its text are arguments, and so is `get_status_text`, which no file defines. The log
-- file and the console are left out. `handle_client_error` is declared `void` and its callers return
-- its result: it returns the response here.
use distributed_data_science.Prelude.{
  ℕ, ◌+◌, ◌-◌, ◌*◌, Bool, true, false, ◌&&◌, not, String, List, [], ◌∷◌, ◌++◌, ltb, leb, ◌==◌,
  if◌then◌else◌, string_key, keep, codes, is_empty, length, drop,
}
use distributed_data_science.Prelude.Words.{increment}
use distributed_data_science.Prelude.Maps.{lookup_or, insert}
use distributed_data_science.Prelude.Mutex.{M, ◌>>=◌, ◌>>◌, pure, get, put, locked}
use distributed_data_science.Web.Sanitizing.{sanitize_input}
pub mod Outcomes
pub mod Recovery

pub record HttpResponse : Type 0 where
  pub status_code : ℕ
  pub status_text : List ℕ
  pub headers : List (String × String)
  pub body : List ℕ

-- With the fields of the recovery. `cached` is `response_cache_`, each key with a status code;
-- what becomes of its times and its order is in ResponseCache (`restart_cache`).
pub record Errors : Type 0 where
  pub server_healthy : Bool
  pub consecutive_errors : ℕ
  pub total_errors : ℕ
  pub error_counts : List (String × ℕ)
  pub error_log : List (List ℕ)
  pub auto_recovery_enabled : Bool
  pub last_health_check : ℕ
  pub health_check_interval : ℕ
  pub thread_pool_size : ℕ
  pub cached : List (String × ℕ)
  pub max_cache_size : ℕ
  pub security_enabled : Bool

-- What the methods read of the world.
pub record Moment : Type 0 where
  pub now : ℕ
  pub timestamp : List ℕ
  pub get_status_text : ℕ → List ℕ
  pub to_string : ℕ → List ℕ

unfoldable pub log_entry : Moment → String → List ℕ → List ℕ → List ℕ
log_entry m error_type message details =
    let entry =
      codes "[" ++ m.timestamp ++ codes "] " ++ codes error_type ++ codes ": " ++ message in
    if is_empty details then entry else entry ++ codes " | " ++ details

-- The log keeps at most a thousand entries: one more drops the five hundred oldest.
unfoldable pub append_entry : List ℕ → List (List ℕ) → List (List ℕ)
append_entry entry log =
    let longer = log ++ entry ∷ [] in if ltb 1000 (length longer) then drop 500 longer else longer

unfoldable pub note_error : Moment → String → List ℕ → List ℕ → Errors → Errors
unfolding log_entry append_entry insert lookup_or increment
note_error m error_type message details e = record e {
  error_log = append_entry (log_entry m error_type message details) e.error_log;
  error_counts =
      insert error_type (increment (lookup_or 0 error_type e.error_counts)) e.error_counts;
}

unfoldable pub log_error : Moment → String → List ℕ → List ℕ → M Errors (Unit {0})
unfolding note_error
log_error m error_type message details =
    locked (get >>= λ e. put (note_error m error_type message details e))

unfoldable pub error_response : Moment → Bool → ℕ → List ℕ → List ℕ → HttpResponse → HttpResponse
unfolding sanitize_input insert
error_response m security_enabled code text message res = record res {
  status_code = code;
  status_text = text;
  headers = insert "Content-Type" "application/json" res.headers;
  body =
      codes "{\"error\":\""
      ++ text
      ++ codes "\",\"message\":\""
      ++ sanitize_input security_enabled message
      ++ codes "\",\"timestamp\":\""
      ++ m.timestamp
      ++ codes "\"}";
}

unfoldable pub count_error : Errors → Errors
unfolding increment
count_error e = record e { total_errors = increment e.total_errors }

unfoldable pub handle_client_error : Moment → ℕ → List ℕ → HttpResponse → M Errors HttpResponse
unfolding log_error error_response count_error
handle_client_error m code message res = locked (
    get >>= λ e.
    put (count_error e)
    >> (log_error m "CLIENT_ERROR" message (codes "Status: " ++ m.to_string code)
        >> pure (error_response m e.security_enabled code (m.get_status_text code) message res)))

unfoldable pub is_server_healthy : Errors → Bool
is_server_healthy e = e.server_healthy && ltb e.consecutive_errors 10

-- The second definition of the name, which fits the fields. A `size_t` is never below 0.
unfoldable pub perform_health_check : Moment → Errors → Errors
perform_health_check m e =
    if ltb (m.now - e.last_health_check) e.health_check_interval then e else record e {
      last_health_check = m.now;
      server_healthy =
          not (e.thread_pool_size == 0) && not (ltb (e.max_cache_size * 2) (length e.cached));
    }

-- `error_mutex_` is free here; the mutex of this monad is `cache_mutex_`, which `clear_cache` locks.
unfoldable pub clear_cache : M Errors (Unit {0})
clear_cache = locked (get >>= λ e. put (record e { cached = [] }))

unfoldable pub clear_log : Errors → Errors
clear_log e = if ltb 2000 (length e.error_log) then record e { error_log = [] } else e

unfoldable pub cleanup_resources : M Errors (Unit {0})
unfolding clear_cache clear_log
cleanup_resources =
    (get >>= λ e. put (clear_log e))
    >> locked (
        get >>= λ e.
        if ltb (e.max_cache_size * 3) (length e.cached * 2) then clear_cache else pure tt)

unfoldable pub is_status : String × ℕ → Bool
is_status entry = not (ltb entry.1 200) && ltb entry.1 600

unfoldable pub restart : Errors → Errors
unfolding is_status
restart e = record e {
  consecutive_errors = 0;
  thread_pool_size = if e.thread_pool_size == 0 then 4 else e.thread_pool_size;
  cached = keep is_status e.cached;
}

unfoldable pub restart_failed_components : M Errors (Unit {0})
unfolding restart
restart_failed_components = locked (get >>= λ e. put (restart e))

unfoldable pub settle : Errors → Errors
settle e = if e.server_healthy then record e { consecutive_errors = 0 } else e

unfoldable pub recover_from_error : Moment → M Errors (Unit {0})
unfolding cleanup_resources restart_failed_components perform_health_check settle
recover_from_error m =
    cleanup_resources
    >> (restart_failed_components >> (get >>= λ e. put (settle (perform_health_check m e))))

unfoldable pub count_server_error : Errors → Errors
unfolding increment
count_server_error e = record e {
  total_errors = increment e.total_errors;
  consecutive_errors = increment e.consecutive_errors;
  server_healthy = false;
}

-- `error_mutex_` again. The recovery locks other mutexes first, `recover` here.
unfoldable pub handle_server_error :
    Moment → M Errors (Unit {0}) → List ℕ → HttpResponse → M Errors HttpResponse
unfolding log_error error_response count_server_error
handle_server_error m recover what res = locked (
    get >>= λ e.
    put (count_server_error e)
    >> (log_error m "SERVER_ERROR" (codes "Internal Server Error: " ++ what) []
        >> (get >>= λ e'.
            (if e'.auto_recovery_enabled && ltb 5 e'.consecutive_errors then recover else pure tt)
            >> pure (
                error_response m e'.security_enabled 500 (codes "Internal Server Error") what
                  res))))
