-- ===== src/Tests/Servers.antt =====
-- Sessions, accounts, the response cache, frames and the limits of a server.
use distributed_data_science.Prelude.{
  ℕ, ◌-◌, ◌^◌, ◌≡◌, refl, true, List, [], ◌∷◌, arith, string_key, leb, ◌++◌, if◌then◌else◌,
}
use Prim.Native.String.{len}
use distributed_data_science.Prelude.Maps.{lookup}
use distributed_data_science.Web.Accounts.{
  User, Accounts, Hashing, authenticate_user, hash_password, verify_password,
}
use distributed_data_science.Web.Accounts.Lockout.{try_all, locks_out}
use distributed_data_science.Web.Frames.{
  length_bytes, encode_websocket_frame, decode_websocket_frame, is_websocket_frame_complete,
}
use distributed_data_science.Web.Frames.RoundTrip.{decode-encode}
use distributed_data_science.Web.Frames.Overflow.{truncated}
use distributed_data_science.Web.Admission.{Connections, load_for_acquire, finish}
use distributed_data_science.Web.Admission.Race.{two_threads}

-- A hash by length.
abbrev hashing : Hashing
hashing = record { hash = λ s. len s; to_string = λ n. if leb n 6 then "short" else "long" }

abbrev ann : User
ann = record {
  username = "ann";
  password_hash = "long";
  roles = "admin" ∷ [];
  created_at = 0;
  last_login = 0;
  failed_attempts = 0;
  lockout_until = 0;
  is_active = true;
}

abbrev accounts : Accounts
accounts = record {
  registered_users = ("ann", ann) ∷ [];
  user_roles = ("ann", "admin" ∷ []) ∷ [];
  role_permissions = ("admin", "read" ∷ []) ∷ [];
  stats = record {
    locked_out_attempts = 0;
    successful_logins = 0;
    failed_logins = 0;
    registered = 1;
  };
  max_failed_attempts = 2;
  lockout_duration = 900;
}

locks_out_example :
    (authenticate_user hashing "ann" "secret" 2000
      (authenticate_user hashing "ann" "b" 20
        (try_all hashing "ann" (("a", 10) ∷ []) accounts)).1).0
    ≡ true
unfolding lookup verify_password hash_password
locks_out_example =
    (locks_out hashing "ann" (("a", 10) ∷ []) "b" 20 accounts ann refl (refl, (refl, tt)) refl
        (omega arith) "secret" 2000 refl).1
      (omega arith)

abbrev payload : List ℕ
payload = 104 ∷ 105 ∷ []

decoded_example : decode_websocket_frame (encode_websocket_frame payload 1) ≡ payload
decoded_example = (decode-encode payload 1 (omega arith) (omega arith)).0

truncated_example :
    (is_websocket_frame_complete (129 ∷ 127 ∷ (length_bytes 8 (2 ^ 64 - 1) ++ payload)) ≡ true)
    × (decode_websocket_frame (129 ∷ 127 ∷ (length_bytes 8 (2 ^ 64 - 1) ++ payload)) ≡ payload)
truncated_example = (truncated 129 (2 ^ 64 - 1) payload (omega arith) (omega arith)).1 (omega arith)

abbrev nearly_full : Connections
nearly_full = record { active_connections = 1; max_connections = 2 }

raced_example :
    (finish
      (load_for_acquire nearly_full)
      (finish (load_for_acquire nearly_full) nearly_full)).active_connections
    ≡ 3
raced_example = (two_threads nearly_full (omega arith)).0 refl
