-- ===== src/Web/Login/Live.antt =====
-- Which session a request may use, and what its user may do (src/web/web_server.cpp).
use distributed_data_science.Prelude.{
  ℕ, ltb, ◌-◌, ◌=?◌, List, [], ◌∷◌, Option, none, inl, inr, Option-cases, ◌≡◌, refl, Bool, true,
  false, some, String, arith, if◌then◌else◌, string_key,
}
use distributed_data_science.Prelude.Maps.{insert, lookup, lookup_or, lookup-insert_self}
use distributed_data_science.Web.Sessions.{
  Session, Sessions, is_expired, validate_session, get_session_user,
}
use distributed_data_science.Web.Accounts.{Accounts, contains, any_grants, has_permission}
use distributed_data_science.Web.Errors.{Moment}
use distributed_data_science.Web.Login.{Site, Settings, check_session}

-- The session that a request may use: it is there, active, and its last use is no longer ago than the
-- timeout.
unfoldable pub live : String → ℕ → Sessions → Option Session
unfolding lookup
live session_id now s = if session_id =? "" then none else elim (lookup session_id s.entries) [
  | none ↦ none
  | some v ↦
      if ltb s.session_timeout (now - v.last_activity)
      then none
      else if v.is_active
      then some v
      else none
]

-- The site after a use of a session.
unfoldable pub used : String → ℕ → Session → Site → Site
unfolding insert
used session_id now v s = record s {
  sessions = record s.sessions {
    entries = insert session_id (record v { last_activity = now }) s.sessions.entries;
  };
}

-- One of the roles has the permission.
unfoldable pub allows : List (String × List String) → String → List String → Bool
unfolding lookup_or contains
allows permissions p [] = false
allows permissions p (role ∷ roles) =
    let others = allows permissions p roles in
    if contains p (lookup_or [] role permissions) then true else others

unfoldable pub may : String → String → Accounts → Bool
unfolding lookup allows
may username permission a = elim (lookup username a.user_roles) [
  | none ↦ false
  | some roles ↦ allows a.role_permissions permission roles
]

any_grants-allows :
    (permissions : List (String × List String)) (p : String) (roles : List String)
    → any_grants permissions p roles ≡ allows permissions p roles
unfolding any_grants allows
any_grants-allows permissions p [] = refl
any_grants-allows permissions p (role ∷ roles) =
    ground (arith, any_grants-allows permissions p roles)

pub has_permission-may :
    (username permission : String) (a : Accounts)
    → has_permission username permission a ≡ may username permission a
unfolding has_permission may
has_permission-may username permission a = elim (Option-cases (lookup username a.user_roles)) [
  | inl e ↦ rw (e, has_permission, may) refl
  | inr (roles, e) ↦
      rw (e, has_permission, may) (any_grants-allows a.role_permissions permission roles)
]

pub check_session-none :
    (t : Settings) (m : Moment) (session_id : String) (s : Site)
    → live session_id m.now s.sessions ≡ none
    → (check_session t m session_id s).0 ≡ false
unfolding check_session validate_session is_expired live
check_session-none t m session_id s e = ground arith

pub check_session-some :
    (t : Settings) (m : Moment) (session_id : String) (s : Site) (v : Session)
    → live session_id m.now s.sessions ≡ some v
    → check_session t m session_id s ≡ (true, used session_id m.now v s)
unfolding check_session validate_session is_expired live used
check_session-some t m session_id s v e = ground arith

pub get_session_user-used :
    (session_id : String) (now : ℕ) (v : Session) (s : Site)
    → get_session_user session_id (used session_id now v s).sessions ≡ v.username
unfolding get_session_user used
get_session_user-used session_id now v s =
    rw
      (
        lookup-insert_self session_id (record v { last_activity = now }) s.sessions.entries,
        get_session_user,
      )
      refl
