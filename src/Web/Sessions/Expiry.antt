-- ===== src/Web/Sessions/Expiry.antt =====
-- Which sessions are valid, and for how long.
use distributed_data_science.Prelude.{
  ℕ, ◌+◌, ◌≤◌, ◌<◌, ◌≡◌, refl, ◌∙◌, true, false, Option, none, some, String, List, [], ◌∷◌, arith,
  inl, inr, if◌then◌else◌, string_key, ◌=?◌, =?_iff, =?_refl, Bool-cases, Option-cases,
}
use distributed_data_science.Prelude.Maps.{
  lookup, Distinct, has-lookup, lookup-insert_self, lookup-erase_self, lookup-erase,
}
use distributed_data_science.Web.Sessions.{
  Session, SessionStats, Sessions, create_session, is_expired, count_expired, validate_session,
  invalidate_session, get_session_user, sweep, cleanup_expired_sessions,
}

validate_found :
    (k : String) (now : ℕ) (s : Sessions) (v : Session)
    → lookup k s.entries ≡ some v
    → (validate_session k now s).0
      ≡ (if is_expired now s.session_timeout v then false else v.is_active)
unfolding validate_session
validate_found k now s v e = elim (Bool-cases (is_expired now s.session_timeout v)) [
  | inl x ↦ rw (e, x, validate_session) refl
  | inr x ↦ rw (e, x, validate_session) refl
]

validate_missing :
    (k : String) (now : ℕ) (s : Sessions)
    → lookup k s.entries ≡ none
    → (validate_session k now s).0 ≡ false
unfolding validate_session
validate_missing k now s e = rw (e, validate_session) refl

validate_entry :
    (k : String) (now : ℕ) (s : Sessions) (v : Session)
    → lookup k s.entries ≡ some v
    → lookup k (validate_session k now s).1.entries ≡ (
        if is_expired now s.session_timeout v
        then none
        else some (record v { last_activity = now }))
unfolding validate_session
validate_entry k now s v e = elim (Bool-cases (is_expired now s.session_timeout v)) [
  | inl x ↦ rw (e, x, validate_session) (lookup-erase_self k s.entries)
  | inr x ↦ rw (e, x, validate_session) (lookup-insert_self k _ s.entries)
]

user_found :
    (k : String) (s : Sessions) (v : Session)
    → lookup k s.entries ≡ some v
    → get_session_user k s ≡ v.username
unfolding get_session_user
user_found k s v e = rw (e, get_session_user) refl

user_missing : (k : String) (s : Sessions) → lookup k s.entries ≡ none → get_session_user k s ≡ ""
unfolding get_session_user
user_missing k s e = rw (e, get_session_user) refl

-- A session belongs to the user it was created for. It is valid until its timeout is over, and from
-- then on it is not: the validation that finds it expired removes it, and it has no user any more.
pub create_session-validate :
    (username user_agent : String) (now later : ℕ) (k : String) (s : Sessions)
    → let s' = create_session username user_agent now k s in
      (get_session_user k s' ≡ username)
      × (later ≤ now + s.session_timeout → (validate_session k later s').0 ≡ true)
      × (now + s.session_timeout < later
          → ((validate_session k later s').0 ≡ false)
            × (get_session_user k (validate_session k later s').1 ≡ ""))
unfolding create_session is_expired
create_session-validate username user_agent now later k s =
    let s' = create_session username user_agent now k s in
    let v : Session = record {
      username = username;
      user_agent = user_agent;
      created_at = now;
      last_activity = now;
      attributes = [];
      is_active = true;
    } in
    let e : lookup k s'.entries ≡ some v = lookup-insert_self k v s.entries in
    (
      user_found k s' v e,
      (λ h. ground (arith, validate_found k later s' v e)),
      (λ h. (
        ground (arith, validate_found k later s' v e),
        user_missing k _ (ground (arith, validate_entry k later s' v e)),
      )),
    )

validate_timeout :
    (k : String) (now : ℕ) (s : Sessions)
    → (validate_session k now s).1.session_timeout ≡ s.session_timeout
unfolding validate_session
validate_timeout k now s = elim (Option-cases (lookup k s.entries)) [
  | inl e ↦ rw (e, validate_session) refl
  | inr (v, e) ↦ elim (Bool-cases (is_expired now s.session_timeout v)) [
    | inl x ↦ rw (e, x, validate_session) refl
    | inr x ↦ rw (e, x, validate_session) refl
  ]
]

-- A session found valid at one time is valid for another whole timeout from that time.
pub validate_session_again :
    (k : String) (now later : ℕ) (s : Sessions)
    → (validate_session k now s).0 ≡ true
    → later ≤ now + s.session_timeout
    → (validate_session k later (validate_session k now s).1).0 ≡ true
unfolding is_expired
validate_session_again k now later s h l = elim (Option-cases (lookup k s.entries)) [
  | inl e ↦ ground (arith, validate_missing k now s e)
  | inr (v, e) ↦
      let s' = (validate_session k now s).1 in
      let v' = record v { last_activity = now } in
      elim (Bool-cases (is_expired now s.session_timeout v)) [
        | inl x ↦ ground (arith, validate_found k now s v e)
        | inr x ↦
            let e' : lookup k s'.entries ≡ some v' = ground (arith, validate_entry k now s v e) in
            ground (
              arith,
              validate_found k later s' v' e',
              validate_found k now s v e,
              validate_timeout k now s,
            )
      ]
]

user_same :
    (k : String) (s s' : Sessions)
    → lookup k s.entries ≡ lookup k s'.entries
    → get_session_user k s ≡ get_session_user k s'
unfolding get_session_user
user_same k s s' e = rw (e, get_session_user) refl

invalidate_entry :
    (k j : String) (s : Sessions)
    → lookup j (invalidate_session k s).entries ≡ (if k =? j then none else lookup j s.entries)
unfolding invalidate_session
invalidate_entry k j s = elim (Option-cases (lookup k s.entries)) [
  | inl e ↦ rw (e, invalidate_session) (ground (arith, =?_iff k j, e))
  | inr (v, e) ↦ rw (e, invalidate_session) (lookup-erase k j s.entries)
]

-- An invalidated session is not valid at any time and has no user; the other sessions stay.
invalidate_session-validate :
    (k j : String) (now : ℕ) (s : Sessions)
    → ((validate_session k now (invalidate_session k s)).0 ≡ false)
      × (get_session_user k (invalidate_session k s) ≡ "")
      × (¬ (k ≡ j) → get_session_user j (invalidate_session k s) ≡ get_session_user j s)
invalidate_session-validate k j now s =
    let s' = invalidate_session k s in
    let gone : lookup k s'.entries ≡ none = ground (arith, invalidate_entry k k s, =?_refl k) in
    (
      validate_missing k now s' gone,
      user_missing k s' gone,
      λ n. user_same j s' s (ground (arith, invalidate_entry k j s, =?_iff k j)),
    )

unexpired : ℕ → ℕ → Option Session → Option Session
unexpired now timeout none = none
unexpired now timeout (some v) = if is_expired now timeout v then none else some v

lookup-sweep :
    (now timeout : ℕ) (k : String) (l : List (String × Session)) (stats : SessionStats)
    → Distinct l
    → lookup k (sweep now timeout l stats).0 ≡ unexpired now timeout (lookup k l)
unfolding sweep lookup unexpired
lookup-sweep now timeout k [] stats d = refl
lookup-sweep now timeout k ((j, v) ∷ l) stats d = ground (
  arith,
  =?_iff j k,
  has-lookup j l,
  lookup-sweep now timeout k l stats d.1,
  lookup-sweep now timeout k l (count_expired stats) d.1,
)

-- After a clean-up the sessions are those that had not expired, each as it was.
pub lookup-cleanup_expired_sessions :
    (k : String) (now : ℕ) (s : Sessions)
    → Distinct s.entries
    → lookup k (cleanup_expired_sessions now s).entries ≡ elim (lookup k s.entries) [
      | none ↦ none
      | some v ↦ if is_expired now s.session_timeout v then none else some v
    ]
unfolding cleanup_expired_sessions unexpired
lookup-cleanup_expired_sessions k now s d =
    lookup-sweep now s.session_timeout k s.entries s.stats d
    ∙ elim (Option-cases (lookup k s.entries)) [ inl e ↦ rw e refl | inr (v, e) ↦ rw e refl ]
