-- ===== src/Web/Login.antt =====
-- The pages that log a user in and out (src/web/web_server.cpp): `extract_session_id` to
-- `require_permission`, on the sessions, the accounts, the tokens and the errors of the server. The
-- monad's mutex is `error_mutex_`; the mutexes of the sessions and of the users are free when a page
-- locks them. The clock's reading and the drawn session identifier are arguments. The code indexes
-- the headers of a request that is `const`; a header that is missing reads as empty here.
use Prim.Native.String.{len}
use distributed_data_science.Prelude.{
  ℕ, ◌+◌, ◌-◌, Bool, true, false, not, ◌||◌, Option, none, some, String, List, [], ◌∷◌, ◌++◌,
  if◌then◌else◌, ◌=?◌, string_key, concat, codes,
}
use distributed_data_science.Prelude.Maps.{lookup, lookup_or, insert}
use distributed_data_science.Prelude.Mutex.{
  M, Outcome, returns, deadlock, ◌>>=◌, ◌>>◌, pure, get, put,
}
use distributed_data_science.Web.Texts.{substr, rest_from, find_from}
use distributed_data_science.Web.ResponseCache.Queries.{HttpRequest}
use distributed_data_science.Web.Sessions.{
  Sessions, create_session, validate_session, invalidate_session, get_session_user,
}
use distributed_data_science.Web.Accounts.{
  Accounts, User, authenticate_user, register_user, get_user_roles, has_permission, hash_password,
  verify_password,
}
use distributed_data_science.Web.Tokens.{Issuer, generate_jwt_token}
use distributed_data_science.Web.Errors.{Errors, HttpResponse, Moment, handle_client_error}
pub mod Cookies
pub mod Live
pub mod Pages

pub record Site : Type 0 where
  pub sessions : Sessions
  pub accounts : Accounts
  pub errors : Errors

pub record Settings : Type 0 where
  pub issuer : Issuer
  pub session_cookie_name : String
  pub auth_cookie_name : String

abbrev pub Page : Type 0
Page = M Site HttpResponse

abbrev pub Handler : Type 0
Handler = HttpRequest → HttpResponse → Page

-- On the errors of the site.
abbrev pub on_errors : {A : Type 0} → M Errors A → M Site A
on_errors m held s = elim (m held s.errors) [
  | returns (a, e) ↦ returns (a, record s { errors = e })
  | deadlock ↦ deadlock
]

unfoldable pub client_error : Moment → ℕ → String → HttpResponse → Page
unfolding handle_client_error
client_error m code message res = on_errors (handle_client_error m code (codes message) res)

unfoldable pub extract_session_id : Settings → HttpRequest → String
unfolding lookup find_from substr rest_from
extract_session_id t req = elim (lookup "cookie" req.headers) [
  | none ↦ ""
  | some cookies ↦
      let session_cookie = concat t.session_cookie_name "=" in
      elim (find_from cookies session_cookie 0) [
        | none ↦ ""
        | some found ↦
            let pos = found + len session_cookie in
            elim (find_from cookies ";" pos) [
              | none ↦ substr cookies pos (len cookies - pos)
              | some end_pos ↦ substr cookies pos (end_pos - pos)
            ]
      ]
]

-- `name + "=" + value + "; HttpOnly; Path=/; Max-Age=" + age`.
unfoldable pub cookie : String → String → String → String
cookie name value age =
    concat name (concat "=" (concat value (concat "; HttpOnly; Path=/; Max-Age=" age)))

unfoldable pub add_cookie : String → HttpResponse → HttpResponse
unfolding insert
add_cookie text res = record res { headers = insert "Set-Cookie" text res.headers }

unfoldable pub add_session_cookie : Settings → Sessions → String → HttpResponse → HttpResponse
unfolding cookie add_cookie
add_session_cookie t sessions session_id res =
    add_cookie
      (cookie t.session_cookie_name session_id
        (t.issuer.hashing.to_string sessions.session_timeout))
      res

unfoldable pub add_auth_cookie : Settings → String → HttpResponse → HttpResponse
unfolding cookie add_cookie
add_auth_cookie t token res =
    add_cookie (cookie t.auth_cookie_name token (t.issuer.hashing.to_string t.issuer.token_expiry))
      res

unfoldable pub answer : ℕ → String → HttpResponse → HttpResponse
unfolding insert
answer code text res = record res {
  status_code = code;
  status_text = codes text;
  headers = insert "Content-Type" "application/json" res.headers;
}

unfoldable pub with_body : List ℕ → HttpResponse → HttpResponse
with_body body res = record res { body = body }

-- The text from a position to the next quotation mark, or to the end.
unfoldable pub quoted_from : String → ℕ → String
unfolding find_from substr rest_from
quoted_from body pos = elim (find_from body "\"" pos) [
  | none ↦ rest_from body pos
  | some end_pos ↦ substr body pos (end_pos - pos)
]

-- The values behind two keys, both empty if one of the keys is missing. No `substr` of it throws.
unfoldable pub two_values : String → String → String → String × String
unfolding find_from quoted_from
two_values body key key' = elim (find_from body key 0) [
  | none ↦ ("", "")
  | some pos ↦ elim (find_from body key' 0) [
    | none ↦ ("", "")
    | some pos' ↦ (quoted_from body (pos + len key), quoted_from body (pos' + len key'))
  ]
]

abbrev pub credentials : String → String × String
credentials body = two_values body "\"username\":\"" "\"password\":\""

module _ (t : Settings) (m : Moment) where
  -- The branch of a right password.
  unfoldable pub logged_in :
      String → HttpRequest → String → HttpResponse → Site → HttpResponse × Site
  unfolding create_session get_user_roles generate_jwt_token answer add_session_cookie
      add_auth_cookie with_body lookup_or
  logged_in session_id req username res s =
      let sessions =
        create_session username (lookup_or "" "user-agent" req.headers) m.now session_id
          s.sessions in
      let token = generate_jwt_token t.issuer username (get_user_roles username s.accounts) m.now in
      let body =
        codes "{\"success\":true,\"message\":\"Login successful\",\"username\":\""
        ++ codes username
        ++ codes "\"}" in
      (
        with_body body (
            add_auth_cookie t token
              (add_session_cookie t sessions session_id (answer 200 "OK" res))),
        record s { sessions = sessions },
      )

  unfoldable pub handle_login : String → Handler
  unfolding client_error authenticate_user logged_in answer with_body
  handle_login session_id req res =
      let (username, password) = credentials req.body in
      if not (req.method =? "POST")
      then client_error m 405 "Method not allowed" res
      else if username =? "" || password =? ""
      then client_error m 400 "Username and password required" res
      else get >>= λ s.
          let (ok, accounts) =
            authenticate_user t.issuer.hashing username password m.now s.accounts in
          let s' : Site = record s { accounts = accounts } in
          let entered = logged_in session_id req username res s' in
          if ok
          then put entered.1 >> pure entered.0
          else put s'
            >> pure (
                with_body (codes "{\"success\":false,\"message\":\"Invalid credentials\"}")
                  (answer 401 "Unauthorized" res))

  unfoldable pub handle_logout : Handler
  unfolding extract_session_id invalidate_session answer add_cookie with_body
  handle_logout req res = get >>= λ s.
      let session_id = extract_session_id t req in
      let sessions =
        if session_id =? "" then s.sessions else invalidate_session session_id s.sessions in
      put (record s { sessions = sessions })
      >> pure (
          with_body (codes "{\"success\":true,\"message\":\"Logout successful\"}") (
            add_cookie (concat t.auth_cookie_name "=; HttpOnly; Path=/; Max-Age=0") (
              add_cookie (concat t.session_cookie_name "=; HttpOnly; Path=/; Max-Age=0")
                (answer 200 "OK" res))))

  unfoldable pub handle_register : Handler
  unfolding client_error register_user answer with_body
  handle_register req res =
      let (username, password) = credentials req.body in
      if not (req.method =? "POST")
      then client_error m 405 "Method not allowed" res
      else if username =? "" || password =? ""
      then client_error m 400 "Username and password required" res
      else get >>= λ s.
          let (ok, accounts) =
            register_user t.issuer.hashing username password ("user" ∷ []) m.now s.accounts in
          put (record s { accounts = accounts })
          >> pure (
              if ok
              then with_body
                  (codes "{\"success\":true,\"message\":\"User registered successfully\"}")
                  (answer 201 "Created" res)
              else with_body (codes "{\"success\":false,\"message\":\"Username already exists\"}")
                  (answer 409 "Conflict" res))

  -- `session_id.empty() || !validate_session(session_id)`, with the sessions that the check leaves.
  unfoldable pub check_session : String → Site → Bool × Site
  unfolding validate_session
  check_session session_id s =
      let (valid, sessions) = validate_session session_id m.now s.sessions in
      if session_id =? "" then (false, s) else (valid, record s { sessions = sessions })

  unfoldable pub require_authentication : Handler → Handler
  unfolding extract_session_id check_session client_error
  require_authentication handler req res = get >>= λ s.
      let (valid, s') = check_session (extract_session_id t req) s in
      put s'
      >> (if valid then handler req res else client_error m 401 "Authentication required" res)

  unfoldable pub require_permission : String → Handler → Handler
  unfolding extract_session_id check_session client_error get_session_user has_permission
  require_permission permission handler req res = get >>= λ s.
      let (valid, s') = check_session (extract_session_id t req) s in
      let username = get_session_user (extract_session_id t req) s'.sessions in
      put s'
      >> (if valid
          then (if has_permission username permission s'.accounts
              then handler req res
              else client_error m 403 "Insufficient permissions" res)
          else client_error m 401 "Authentication required" res)
