-- ===== src/Web/Login/Pages.antt =====
-- How the pages work together (src/web/web_server.cpp): a login, and the requests behind it.
use distributed_data_science.Prelude.{
  ℕ, ap, [], ◌++◌, codes, none, inl, inr, Option-cases, ◌+◌, ◌≤◌, ◌≡◌, ◌≢◌, refl, Bool, true, false,
  some, String, arith, if◌then◌else◌, =?_iff, string_key, concat,
}
use distributed_data_science.Prelude.Maps.{
  insert, insert-insert, lookup, lookup_or, lookup-insert_self,
}
use distributed_data_science.Prelude.Mutex.{returns, deadlock}
use distributed_data_science.Web.ResponseCache.Queries.{HttpRequest}
use distributed_data_science.Web.Texts.Laws.{Lacks}
use distributed_data_science.Web.Sessions.{create_session, Session}
use distributed_data_science.Web.Accounts.{authenticate_user, get_user_roles}
use distributed_data_science.Web.Tokens.{generate_jwt_token}
use distributed_data_science.Web.Errors.{HttpResponse, Moment, handle_client_error}
use distributed_data_science.Web.Login.{
  Site, Settings, Handler, client_error, extract_session_id, cookie, add_cookie, add_session_cookie,
  add_auth_cookie, answer, with_body, credentials, logged_in, handle_login, check_session,
  require_authentication, require_permission,
}
use distributed_data_science.Web.Login.Live.{
  live, used, may, check_session-none, check_session-some, get_session_user-used,
  has_permission-may,
}
use distributed_data_science.Web.Login.Cookies.{extract_session_id-alone}

client_error-deadlock :
    (m : Moment) (code : ℕ) (message : String) (res : HttpResponse) (held : Bool) (s : Site)
    → client_error m code message res held s ≡ deadlock
unfolding client_error handle_client_error
client_error-deadlock m code message res true s = refl
client_error-deadlock m code message res false s = refl

module _ (t : Settings) (m : Moment) (handler : Handler) (req : HttpRequest)
    (res : HttpResponse) where
  -- A page behind `require_authentication` runs exactly for a request whose cookie names a session that is
  -- there, active and not older than the timeout since its last use, and one behind `require_permission` if
  -- one of the roles of the session's user has the permission too; both run with this moment as the last
  -- use of the session. Any other request is not refused: it never returns.
  pub guards_outcome :
      (permission : String) (held : Bool) (s : Site)
      → let session_id = extract_session_id t req in
        (require_authentication t m handler req res held s
          ≡ elim (live session_id m.now s.sessions) [
            | none ↦ deadlock
            | some v ↦ handler req res held (used session_id m.now v s)
          ])
        × (require_permission t m permission handler req res held s
            ≡ elim (live session_id m.now s.sessions) [
              | none ↦ deadlock
              | some v ↦
                  if may v.username permission s.accounts
                  then handler req res held (used session_id m.now v s)
                  else deadlock
            ])
  unfolding require_authentication require_permission
  guards_outcome permission held s =
      let session_id = extract_session_id t req in
      let s' = (check_session t m session_id s).1 in
      let refuses = client_error-deadlock m 401 "Authentication required" res held s' in
      let forbids = client_error-deadlock m 403 "Insufficient permissions" res held s' in
      elim (Option-cases (live session_id m.now s.sessions)) [
        | inl e ↦ ground (arith, refuses, e, check_session-none t m session_id s e)
        | inr (v, e) ↦
            let user = get_session_user-used session_id m.now v s in
            let permits = has_permission-may v.username permission s.accounts in
            ground (arith, forbids, e, user, permits, used, check_session-some t m session_id s v e)
      ]

module _ (t : Settings) (m : Moment) (session_id : String) (req : HttpRequest)
    (res : HttpResponse) where
  abbrev pub token_of : String → String → Site → String
  token_of username password s =
      let accounts = (authenticate_user t.issuer.hashing username password m.now s.accounts).1 in
      generate_jwt_token t.issuer username (get_user_roles username accounts) m.now

  -- The site that a login with a right password leaves, and the session that it opens.
  unfoldable pub opened : String → String → Site → Site
  unfolding lookup_or create_session authenticate_user
  opened username password s = record s {
    accounts = (authenticate_user t.issuer.hashing username password m.now s.accounts).1;
    sessions =
        create_session username (lookup_or "" "user-agent" req.headers) m.now session_id s.sessions;
  }

  unfoldable pub new_session : String → Session
  unfolding lookup_or
  new_session username = record {
    username = username;
    user_agent = lookup_or "" "user-agent" req.headers;
    created_at = m.now;
    last_activity = m.now;
    attributes = [];
    is_active = true;
  }

  -- The response, in which there is no session.
  unfoldable pub welcome : String → String → HttpResponse
  unfolding insert
  welcome username token = record {
    status_code = 200;
    status_text = codes "OK";
    headers =
        insert "Set-Cookie"
          (concat t.auth_cookie_name (
            concat "=" (
              concat token (
                concat "; HttpOnly; Path=/; Max-Age="
                  (t.issuer.hashing.to_string t.issuer.token_expiry)))))
          (insert "Content-Type" "application/json" res.headers);
    body =
        codes "{\"success\":true,\"message\":\"Login successful\",\"username\":\""
        ++ codes username
        ++ codes "\"}";
  }

  logged_in-welcome :
      (username password : String) (s : Site)
      → logged_in t m session_id req username res (record s {
        accounts = (authenticate_user t.issuer.hashing username password m.now s.accounts).1;
      })
        ≡ (welcome username (token_of username password s), opened username password s)
  unfolding logged_in welcome opened add_auth_cookie add_session_cookie add_cookie answer with_body
      cookie
  logged_in-welcome username password s =
      ap
        (λ headers. (
          record (welcome username (token_of username password s)) { headers = headers },
          opened username password s,
        ))
        (insert-insert "Set-Cookie" _ _ (insert "Content-Type" "application/json" res.headers))

  handle_login-welcome :
      (username password : String) (held : Bool) (s : Site)
      → req.method ≡ "POST"
      → credentials req.body ≡ (username, password)
      → username ≢ ""
      → password ≢ ""
      → (authenticate_user t.issuer.hashing username password m.now s.accounts).0 ≡ true
      → handle_login t m session_id req res held s
        ≡ returns (welcome username (token_of username password s), opened username password s)
  unfolding handle_login
  handle_login-welcome username password held s post read name word ok = ground (
    arith,
    =?_iff req.method "POST",
    =?_iff username "",
    =?_iff password "",
    logged_in-welcome username password s,
  )

  opened-live :
      (username password : String) (later : ℕ) (s : Site)
      → session_id ≢ ""
      → later ≤ m.now + s.sessions.session_timeout
      → live session_id later (opened username password s).sessions ≡ some (new_session username)
  unfolding live opened new_session create_session
  opened-live username password later s some_id early = ground (
    arith,
    =?_iff session_id "",
    lookup-insert_self session_id (new_session username) s.sessions.entries,
  )

  -- A POST with a right user name and password, neither empty, opens a session: a request not later
  -- than the timeout whose cookie is that session's alone gets to any page behind
  -- `require_authentication`, with its own moment as the last use of the session. But the response that
  -- says so has, beside the headers given, only a content type and the one cookie of the token, which
  -- overwrites the session's, and its body has only the user's name: the client is not told the
  -- session's identifier.
  pub handle_login-outcome :
      (username password : String) (s : Site) (handler : Handler) (m' : Moment) (req' : HttpRequest)
      (res' : HttpResponse) (held : Bool)
      → req.method ≡ "POST"
      → credentials req.body ≡ (username, password)
      → username ≢ ""
      → password ≢ ""
      → (authenticate_user t.issuer.hashing username password m.now s.accounts).0 ≡ true
      → session_id ≢ ""
      → Lacks b';' session_id
      → lookup "cookie" req'.headers ≡ some (concat (concat t.session_cookie_name "=") session_id)
      → m'.now ≤ m.now + s.sessions.session_timeout
      → (handle_login t m session_id req res held s
          ≡ returns (welcome username (token_of username password s), opened username password s))
        × (require_authentication t m' handler req' res' held (opened username password s)
            ≡ handler req' res' held
                (used session_id m'.now (new_session username) (opened username password s)))
  handle_login-outcome username password s handler m' req' res' held post read name word ok id plain
        sent early =
      let site = opened username password s in
      let named : extract_session_id t req' ≡ session_id =
        extract_session_id-alone t req' session_id plain sent in
      let alive = opened-live username password m'.now s id early in
      (
        handle_login-welcome username password held s post read name word ok,
        ground (arith, (guards_outcome t m' handler req' res' "" held site).0, named, alive),
      )
