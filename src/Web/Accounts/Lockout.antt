-- ===== src/Web/Accounts/Lockout.antt =====
-- Logging in, and the lockout after too many failures.
use distributed_data_science.Prelude.{
  ℕ, ◌+◌, ◌%◌, ◌^◌, ◌≤◌, ◌<◌, ◌≡◌, refl, sym, subst, ap, ◌∙◌, true, false, none, some, String, List,
  [], ◌∷◌, arith, inl, inr, leb-false, le→leb, if◌then◌else◌, length, string_key, =?_iff, =?_refl,
  Bool-cases,
}
use distributed_data_science.Prelude.Words.{increment}
use distributed_data_science.Prelude.Maps.{lookup, has, has-lookup, lookup-insert_self}
use distributed_data_science.Web.Accounts.{
  User, Accounts, Hashing, hash_password, verify_password, is_locked, is_user_locked_out, fail,
  record_failed_login, authenticate_user, register_user,
}

fail_early :
    (limit duration now : ℕ) (user : User)
    → user.failed_attempts + 1 < limit
    → limit < 2 ^ 64
    → fail limit duration now user ≡ record user { failed_attempts = user.failed_attempts + 1 }
unfolding fail increment
fail_early limit duration now user f b =
    let e : (user.failed_attempts + 1) % 2 ^ 64 ≡ user.failed_attempts + 1 = omega (arith, f, b) in
    rw (e, leb-false limit (user.failed_attempts + 1) f) refl

fail_late :
    (limit duration now : ℕ) (user : User)
    → user.failed_attempts + 1 ≡ limit
    → limit < 2 ^ 64
    → fail limit duration now user
      ≡ record user { failed_attempts = limit; lockout_until = now + duration }
unfolding fail increment
fail_late limit duration now user f b =
    let e : (user.failed_attempts + 1) % 2 ^ 64 ≡ limit = omega (arith, f, b) in
    rw (e, le→leb limit limit (omega arith)) refl

module _ (h : Hashing) where
  -- What `authenticate_user` answers, in terms of the user's entry.
  login_found :
      (username password : String) (now : ℕ) (a : Accounts) (user : User)
      → lookup username a.registered_users ≡ some user
      → (authenticate_user h username password now a).0 ≡ (
          if is_locked a.max_failed_attempts now user
          then false
          else verify_password h password user.password_hash)
  unfolding authenticate_user is_user_locked_out
  login_found username password now a user e =
      elim (Bool-cases (is_locked a.max_failed_attempts now user)) [
        | inl l ↦ rw (e, l, authenticate_user, is_user_locked_out) refl
        | inr l ↦ elim (Bool-cases (verify_password h password user.password_hash)) [
          | inl v ↦ rw (e, l, v, authenticate_user, is_user_locked_out) refl
          | inr v ↦ rw (e, l, v, authenticate_user, is_user_locked_out) refl
        ]
      ]

  login_locked :
      (username password : String) (now : ℕ) (a : Accounts) (user : User) (limit : ℕ)
      → lookup username a.registered_users ≡ some user
      → a.max_failed_attempts ≡ limit
      → is_locked limit now user ≡ true
      → (authenticate_user h username password now a).0 ≡ false
  login_locked username password now a user limit e m l =
      login_found username password now a user e
      ∙ subst (λ x. (if x then false else verify_password h password user.password_hash) ≡ false)
          (sym (ap (λ x. is_locked x now user) m ∙ l)) refl

  login_open :
      (username password : String) (now : ℕ) (a : Accounts) (user : User) (limit : ℕ)
      → lookup username a.registered_users ≡ some user
      → a.max_failed_attempts ≡ limit
      → is_locked limit now user ≡ false
      → (authenticate_user h username password now a).0
        ≡ verify_password h password user.password_hash
  login_open username password now a user limit e m l =
      let v = verify_password h password user.password_hash in
      login_found username password now a user e
      ∙ subst (λ x. (if x then false else v) ≡ v) (sym (ap (λ x. is_locked x now user) m ∙ l)) refl

  login_missing :
      (username password : String) (now : ℕ) (a : Accounts)
      → lookup username a.registered_users ≡ none
      → (authenticate_user h username password now a).0 ≡ false
  unfolding authenticate_user is_user_locked_out
  login_missing username password now a e = rw (e, authenticate_user, is_user_locked_out) refl

  failed_entry :
      (username : String) (now : ℕ) (a : Accounts) (user : User)
      → lookup username a.registered_users ≡ some user
      → let a' = record_failed_login username now a in
        (lookup username a'.registered_users
          ≡ some (fail a.max_failed_attempts a.lockout_duration now user))
        × (a'.max_failed_attempts ≡ a.max_failed_attempts)
        × (a'.lockout_duration ≡ a.lockout_duration)
  unfolding record_failed_login
  failed_entry username now a user e =
      rw (e, record_failed_login) (lookup-insert_self username _ a.registered_users, refl, refl)

  login_wrong :
      (username password : String) (now : ℕ) (a : Accounts) (user : User)
      → lookup username a.registered_users ≡ some user
      → is_locked a.max_failed_attempts now user ≡ false
      → verify_password h password user.password_hash ≡ false
      → authenticate_user h username password now a ≡ (false, record_failed_login username now a)
  unfolding authenticate_user is_user_locked_out
  login_wrong username password now a user e l v =
      rw (e, l, v, authenticate_user, is_user_locked_out) refl

  -- A wrong password below the limit only counts.
  wrong_early :
      (username password : String) (now : ℕ) (a : Accounts) (user : User)
      → lookup username a.registered_users ≡ some user
      → verify_password h password user.password_hash ≡ false
      → user.failed_attempts + 1 < a.max_failed_attempts
      → a.max_failed_attempts < 2 ^ 64
      → let a' = (authenticate_user h username password now a).1 in
        (lookup username a'.registered_users
          ≡ some (record user { failed_attempts = user.failed_attempts + 1 }))
        × (a'.max_failed_attempts ≡ a.max_failed_attempts)
        × (a'.lockout_duration ≡ a.lockout_duration)
  unfolding is_locked
  wrong_early username password now a user e v f b =
      let (found, limit, duration) = failed_entry username now a user e in
      rw (login_wrong username password now a user e (ground arith) v) (
        found ∙ ap some (fail_early a.max_failed_attempts a.lockout_duration now user f b),
        limit,
        duration,
      )

  -- Attempts to log in, each with its password and its time.
  unfoldable pub try_all : String → List (String × ℕ) → Accounts → Accounts
  unfolding authenticate_user
  try_all username [] a = a
  try_all username ((password, now) ∷ attempts) a =
      try_all username attempts (authenticate_user h username password now a).1

  -- None of the attempts has the password that is stored.
  abbrev pub AllWrong : String → List (String × ℕ) → Type 0
  AllWrong stored [] = Unit
  AllWrong stored ((password, _) ∷ attempts) =
      (verify_password h password stored ≡ false) × AllWrong stored attempts

  try_all-counts :
      (username : String) (attempts : List (String × ℕ)) (a : Accounts) (user : User)
      → lookup username a.registered_users ≡ some user
      → AllWrong user.password_hash attempts
      → user.failed_attempts + length attempts < a.max_failed_attempts
      → a.max_failed_attempts < 2 ^ 64
      → let a' = try_all username attempts a in
        (lookup username a'.registered_users
          ≡ some (record user { failed_attempts = user.failed_attempts + length attempts }))
        × (a'.max_failed_attempts ≡ a.max_failed_attempts)
        × (a'.lockout_duration ≡ a.lockout_duration)
  unfolding try_all
  try_all-counts username [] a user e v f b =
      (e ∙ ap (λ n. some (record user { failed_attempts = n })) (omega arith), refl, refl)
  try_all-counts username ((password, now) ∷ attempts) a user e v f b =
      let a' = (authenticate_user h username password now a).1 in
      let user' = record user { failed_attempts = user.failed_attempts + 1 } in
      let (e', limit, duration) = wrong_early username password now a user e v.0 (omega arith) b in
      let (e'', limit', duration') =
        try_all-counts username attempts a' user' e' v.1
          (subst (λ m. user.failed_attempts + 1 + length attempts < m) (sym limit) (omega arith))
          (subst (λ m. m < 2 ^ 64) (sym limit) b) in
      (
        e'' ∙ ap (λ n. some (record user { failed_attempts = n })) (omega arith),
        limit' ∙ limit,
        duration' ∙ duration,
      )

  -- The entry after the wrong password that reaches the limit.
  wrong_late :
      (username password : String) (now : ℕ) (a : Accounts) (user : User) (limit duration : ℕ)
      → lookup username a.registered_users ≡ some user
      → verify_password h password user.password_hash ≡ false
      → a.max_failed_attempts ≡ limit
      → a.lockout_duration ≡ duration
      → user.failed_attempts + 1 ≡ limit
      → limit < 2 ^ 64
      → let a' = (authenticate_user h username password now a).1 in
        (lookup username a'.registered_users
          ≡ some (record user { failed_attempts = limit; lockout_until = now + duration }))
        × (a'.max_failed_attempts ≡ limit)
  unfolding is_locked
  wrong_late username password now a user limit duration e v m d f b =
      let (found, same, _) = failed_entry username now a user e in
      rw (login_wrong username password now a user e (ground arith) v) (
        found
            ∙ ap (λ x. some (fail x a.lockout_duration now user)) m
            ∙ ap (λ x. some (fail limit x now user)) d
            ∙ ap some (fail_late limit duration now user f b),
        same ∙ m,
      )

  -- A user whose failures, with one more, reach the limit is locked out by the next wrong password:
  -- no password is right then for the length of the lockout, and the right one is from its end on.
  pub locks_out :
      (username : String) (attempts : List (String × ℕ)) (password : String) (last : ℕ)
      → (a : Accounts) (user : User) → lookup username a.registered_users ≡ some user
      → AllWrong user.password_hash ((password, last) ∷ attempts)
      → user.failed_attempts + length attempts + 1 ≡ a.max_failed_attempts
      → a.max_failed_attempts < 2 ^ 64
      → (right : String) (later : ℕ) → verify_password h right user.password_hash ≡ true
      → let a' = (authenticate_user h username password last (try_all username attempts a)).1 in
        (later < last + a.lockout_duration
          → ((other : String) → (authenticate_user h username other later a').0 ≡ false))
        × (last + a.lockout_duration ≤ later
            → (authenticate_user h username right later a').0 ≡ true)
  unfolding is_locked
  locks_out username attempts password last a user e v f b right later r =
      let b' = try_all username attempts a in
      let (e', limit, duration) = try_all-counts username attempts a user e v.1 (omega arith) b in
      let (found, same) =
        wrong_late username password last b' _ a.max_failed_attempts a.lockout_duration e' v.0 limit
          duration f b in
      (
        (λ early. λ other. login_locked username other later _ _ _ found same (ground arith)),
        (λ late. login_open username right later _ _ _ found same (ground arith) ∙ r),
      )

  register_taken :
      (username password : String) (roles : List String) (now : ℕ) (a : Accounts) (user : User)
      → lookup username a.registered_users ≡ some user
      → (register_user h username password roles now a).0 ≡ false
  unfolding register_user
  register_taken username password roles now a user e =
      let there : has username a.registered_users ≡ true =
        has-lookup username a.registered_users ∙ rw e refl in
      rw (there, register_user) refl

  -- A user that could be registered logs in with the password it was registered with, and with no
  -- password whose hash is another.
  register_user-authenticate :
      (username password other : String) (roles : List String) (now later : ℕ) (a : Accounts)
      → has username a.registered_users ≡ false
      → let a' = (register_user h username password roles now a).1 in
        ((register_user h username password roles now a).0 ≡ true)
        × ((authenticate_user h username password later a').0 ≡ true)
        × (¬ (hash_password h other ≡ hash_password h password)
            → (authenticate_user h username other later a').0 ≡ false)
        × ((register_user h username other roles later a').0 ≡ false)
  unfolding register_user is_locked verify_password
  register_user-authenticate username password other roles now later a n =
      let a' = (register_user h username password roles now a).1 in
      let user : User = record {
        username = username;
        password_hash = hash_password h password;
        roles = roles;
        created_at = now;
        last_login = 0;
        failed_attempts = 0;
        lockout_until = 0;
        is_active = true;
      } in
      let e : lookup username a'.registered_users ≡ some user =
        rw (n, register_user) (lookup-insert_self username user a.registered_users) in
      let login = λ (p : String). login_open username p later a' user _ e refl (ground arith) in
      (
        rw (n, register_user) refl,
        login password ∙ =?_refl (hash_password h password),
        (λ different.
            login other
            ∙ ground (arith, =?_iff (hash_password h other) (hash_password h password))),
        register_taken username other roles later a' user e,
      )
