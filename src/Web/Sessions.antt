-- ===== src/Web/Sessions.antt =====
-- The sessions of `WebServer` (src/web/web_server.cpp and include/web/web_server.h): `create_session`
-- to `cleanup_expired_sessions`. The clock's reading is an argument, and so is the identifier that
-- `generate_secure_random_string` draws. A `size_t` counter is a natural number modulo 2^64.
-- The field `data` of `Session` is `attributes` here.
use distributed_data_science.Prelude.{
  ℕ, zero, ◌+◌, ◌-◌, ◌%◌, ◌^◌, Bool, true, false, Option, none, some, String, List, [], ◌∷◌, ltb,
  if◌then◌else◌, string_key,
}
use distributed_data_science.Prelude.Words.{increment, decrement}
use distributed_data_science.Prelude.Maps.{lookup, insert, erase}
pub mod Counters
pub mod Expiry

pub record Session : Type 0 where
  pub username : String
  pub user_agent : String
  pub created_at : ℕ
  pub last_activity : ℕ
  pub attributes : List (String × String)
  pub is_active : Bool

-- `session_stats_`, one field for a key; a key that the map lacks reads as 0.
pub record SessionStats : Type 0 where
  pub total_sessions : ℕ
  pub active_sessions : ℕ
  pub expired_sessions : ℕ
  pub invalidated_sessions : ℕ

pub record Sessions : Type 0 where
  pub entries : List (String × Session)
  pub stats : SessionStats
  pub session_timeout : ℕ

unfoldable pub create_session : String → String → ℕ → String → Sessions → Sessions
unfolding increment insert
create_session username user_agent now session_id s = record s {
  entries =
      insert session_id
        (record {
          username = username;
          user_agent = user_agent;
          created_at = now;
          last_activity = now;
          attributes = [];
          is_active = true;
        })
        s.entries;
  stats = record s.stats {
    total_sessions = increment s.stats.total_sessions;
    active_sessions = increment s.stats.active_sessions;
  };
}

unfoldable pub is_expired : ℕ → ℕ → Session → Bool
is_expired now timeout session = ltb timeout (now - session.last_activity)

unfoldable pub count_expired : SessionStats → SessionStats
unfolding increment decrement
count_expired stats = record stats {
  active_sessions = decrement stats.active_sessions;
  expired_sessions = increment stats.expired_sessions;
}

unfoldable pub validate_session : String → ℕ → Sessions → Bool × Sessions
unfolding lookup insert erase is_expired count_expired
validate_session session_id now s = elim (lookup session_id s.entries) [
  | none ↦ (false, s)
  | some session ↦
      if is_expired now s.session_timeout session
      then (false, record s { entries = erase session_id s.entries; stats = count_expired s.stats })
      else (
        session.is_active,
        record s { entries = insert session_id (record session { last_activity = now }) s.entries },
      )
]

unfoldable pub invalidate_session : String → Sessions → Sessions
unfolding lookup erase increment decrement
invalidate_session session_id s = elim (lookup session_id s.entries) [
  | none ↦ s
  | some _ ↦ record s {
    entries = erase session_id s.entries;
    stats = record s.stats {
      active_sessions = decrement s.stats.active_sessions;
      invalidated_sessions = increment s.stats.invalidated_sessions;
    };
  }
]

unfoldable pub get_session_user : String → Sessions → String
unfolding lookup
get_session_user session_id s = elim (lookup session_id s.entries) [
  | none ↦ ""
  | some session ↦ session.username
]

unfoldable pub update_session_activity : String → ℕ → Sessions → Sessions
unfolding lookup insert
update_session_activity session_id now s = elim (lookup session_id s.entries) [
  | none ↦ s
  | some session ↦ record s {
    entries = insert session_id (record session { last_activity = now }) s.entries;
  }
]

-- The `while` of `cleanup_expired_sessions` over the entries it has not reached.
unfoldable pub sweep :
    ℕ → ℕ → List (String × Session) → SessionStats → List (String × Session) × SessionStats
unfolding is_expired count_expired
sweep now timeout [] stats = ([], stats)
sweep now timeout ((session_id, session) ∷ rest) stats =
    let gone = is_expired now timeout session in
    let (kept, stats') = sweep now timeout rest (if gone then count_expired stats else stats) in
    (if gone then kept else (session_id, session) ∷ kept, stats')

unfoldable pub cleanup_expired_sessions : ℕ → Sessions → Sessions
unfolding sweep
cleanup_expired_sessions now s =
    let (kept, stats) = sweep now s.session_timeout s.entries s.stats in
    record s { entries = kept; stats = stats }

-- A call, with what it reads of the clock and of the random source.
pub data Call : Type 0 where
  creates : String → String → ℕ → String → Call
  validates : String → ℕ → Call
  invalidates : String → Call
  touches : String → ℕ → Call
  sweeps : ℕ → Call

unfoldable pub step : Call → Sessions → Sessions
unfolding create_session validate_session invalidate_session update_session_activity
    cleanup_expired_sessions
step (creates username user_agent now session_id) s =
    create_session username user_agent now session_id s
step (validates session_id now) s = (validate_session session_id now s).1
step (invalidates session_id) s = invalidate_session session_id s
step (touches session_id now) s = update_session_activity session_id now s
step (sweeps now) s = cleanup_expired_sessions now s

unfoldable pub run : List Call → Sessions → Sessions
unfolding step
run [] s = s
run (c ∷ calls) s = run calls (step c s)
