-- ===== src/Web/Accounts.antt =====
-- The users of `WebServer` and their roles (src/web/web_server.cpp and include/web/web_server.h):
-- `authenticate_user` to `reset_failed_attempts`. The clock's reading is an argument. `std::hash` and
-- `std::to_string` are parameters.
use distributed_data_science.Prelude.{
  ℕ, zero, ◌+◌, Bool, true, false, not, ◌&&◌, ◌||◌, Option, none, some, String, List, [], ◌∷◌, ◌++◌,
  ltb, leb, if◌then◌else◌, ◌=?◌, string_key, concat, keep,
}
use distributed_data_science.Prelude.Words.{increment}
use distributed_data_science.Prelude.Maps.{lookup, insert, has, lookup_or}
pub mod Lockout
pub mod Roles

pub record User : Type 0 where
  pub username : String
  pub password_hash : String
  pub roles : List String
  pub created_at : ℕ
  pub last_login : ℕ
  pub failed_attempts : ℕ
  pub lockout_until : ℕ
  pub is_active : Bool

-- `authentication_stats_`, one field for a key; a key that the map lacks reads as 0.
pub record AuthenticationStats : Type 0 where
  pub locked_out_attempts : ℕ
  pub successful_logins : ℕ
  pub failed_logins : ℕ
  pub registered : ℕ

pub record Accounts : Type 0 where
  pub registered_users : List (String × User)
  pub user_roles : List (String × List String)
  pub role_permissions : List (String × List String)
  pub stats : AuthenticationStats
  pub max_failed_attempts : ℕ
  pub lockout_duration : ℕ

-- `std::hash<std::string>` and `std::to_string` of its result.
pub record Hashing : Type 0 where
  pub hash : String → ℕ
  pub to_string : ℕ → String

unfoldable pub hash_password : Hashing → String → String
hash_password h password = h.to_string (h.hash (concat password "salt"))

unfoldable pub verify_password : Hashing → String → String → Bool
unfolding hash_password
verify_password h password stored = hash_password h password =? stored

unfoldable pub is_locked : ℕ → ℕ → User → Bool
is_locked limit now user = leb limit user.failed_attempts && ltb now user.lockout_until

unfoldable pub is_user_locked_out : String → ℕ → Accounts → Bool
unfolding lookup is_locked
is_user_locked_out username now a = elim (lookup username a.registered_users) [
  | none ↦ false
  | some user ↦ is_locked a.max_failed_attempts now user
]

unfoldable pub fail : ℕ → ℕ → ℕ → User → User
unfolding increment
fail limit duration now user =
    let failed = record user { failed_attempts = increment user.failed_attempts } in
    if leb limit failed.failed_attempts
    then record failed { lockout_until = now + duration }
    else failed

unfoldable pub record_failed_login : String → ℕ → Accounts → Accounts
unfolding lookup insert fail increment
record_failed_login username now a = elim (lookup username a.registered_users) [
  | none ↦ a
  | some user ↦ record a {
    registered_users =
        insert username (fail a.max_failed_attempts a.lockout_duration now user) a.registered_users;
    stats = record a.stats { failed_logins = increment a.stats.failed_logins };
  }
]

unfoldable pub reset_failed_attempts : String → Accounts → Accounts
unfolding lookup insert
reset_failed_attempts username a = elim (lookup username a.registered_users) [
  | none ↦ a
  | some user ↦ record a {
    registered_users = insert username (record user { failed_attempts = 0 }) a.registered_users;
  }
]

-- `it->second.last_login = now`, through the iterator that `find` gave.
unfoldable pub set_last_login : String → ℕ → Accounts → Accounts
unfolding lookup insert
set_last_login username now a = elim (lookup username a.registered_users) [
  | none ↦ a
  | some user ↦ record a {
    registered_users = insert username (record user { last_login = now }) a.registered_users;
  }
]

unfoldable pub authenticate_user : Hashing → String → String → ℕ → Accounts → Bool × Accounts
unfolding lookup is_user_locked_out record_failed_login reset_failed_attempts set_last_login
    verify_password increment
authenticate_user h username password now a =
    if is_user_locked_out username now a
    then (
      false,
      record a {
        stats = record a.stats { locked_out_attempts = increment a.stats.locked_out_attempts };
      },
    )
    else elim (lookup username a.registered_users) [
      | none ↦ (false, record_failed_login username now a)
      | some user ↦
          if verify_password h password user.password_hash
          then (let b = set_last_login username now (reset_failed_attempts username a) in
              (
                true,
                record b {
                  stats = record b.stats {
                    successful_logins = increment b.stats.successful_logins;
                  };
                },
              ))
          else (false, record_failed_login username now a)
    ]

-- `if (role_permissions_.find(role) == end) role_permissions_[role] = {};` for every role.
unfoldable pub add_roles : List String → List (String × List String) → List (String × List String)
unfolding has insert
add_roles [] permissions = permissions
add_roles (role ∷ roles) permissions =
    add_roles roles (if has role permissions then permissions else insert role [] permissions)

unfoldable pub register_user :
    Hashing → String → String → List String → ℕ → Accounts → Bool × Accounts
unfolding has insert hash_password add_roles increment
register_user h username password roles now a =
    if has username a.registered_users then (false, a) else (
      true,
      record a {
        registered_users =
            insert username
              (record {
                username = username;
                password_hash = hash_password h password;
                roles = roles;
                created_at = now;
                last_login = 0;
                failed_attempts = 0;
                lockout_until = 0;
                is_active = true;
              })
              a.registered_users;
        user_roles = insert username roles a.user_roles;
        role_permissions = add_roles roles a.role_permissions;
        stats = record a.stats { registered = increment a.stats.registered };
      },
    )

unfoldable pub contains : String → List String → Bool
contains p [] = false
contains p (q ∷ l) = (q =? p) || contains p l

-- The `for` over the roles of a user.
unfoldable pub any_grants : List (String × List String) → String → List String → Bool
unfolding lookup_or contains
any_grants permissions p [] = false
any_grants permissions p (role ∷ roles) =
    contains p (lookup_or [] role permissions) || any_grants permissions p roles

unfoldable pub has_permission : String → String → Accounts → Bool
unfolding lookup any_grants
has_permission username permission a = elim (lookup username a.user_roles) [
  | none ↦ false
  | some roles ↦ any_grants a.role_permissions permission roles
]

unfoldable pub get_user_roles : String → Accounts → List String
unfolding lookup_or
get_user_roles username a = lookup_or [] username a.user_roles

unfoldable pub get_role_permissions : String → Accounts → List String
unfolding lookup_or
get_role_permissions role a = lookup_or [] role a.role_permissions

unfoldable pub add_role_permission : String → String → Accounts → Accounts
unfolding insert lookup_or
add_role_permission role permission a = record a {
  role_permissions =
      insert role (lookup_or [] role a.role_permissions ++ permission ∷ []) a.role_permissions;
}

unfoldable pub remove_role_permission : String → String → Accounts → Accounts
unfolding lookup insert
remove_role_permission role permission a = elim (lookup role a.role_permissions) [
  | none ↦ a
  | some permissions ↦ record a {
    role_permissions =
        insert role (keep (λ p. not (p =? permission)) permissions) a.role_permissions;
  }
]
