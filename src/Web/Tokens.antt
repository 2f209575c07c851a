-- ===== src/Web/Tokens.antt =====
-- The tokens of `WebServer` (src/web/web_server.cpp): `generate_jwt_token` and `validate_jwt_token`.
-- The clock's reading in seconds is an argument; `std::hash`, `std::to_string` and `std::stoll` are
-- parameters, the last with `none` where it throws. A stamp is a natural number.
use Prim.Native.String.{len}
use distributed_data_science.Prelude.{
  ℕ, ◌+◌, ◌-◌, Bool, true, false, not, Option, none, some, String, List, [], ◌∷◌, ltb,
  if◌then◌else◌, ◌=?◌, string_key, concat,
}
use distributed_data_science.Web.Texts.{substr, rest_from, find_from}
use distributed_data_science.Web.Accounts.{Hashing}
pub mod Payload
pub mod RoundTrip

-- What signs a token, and how long one lasts.
pub record Issuer : Type 0 where
  pub hashing : Hashing
  pub stoll : String → Option ℕ
  pub jwt_secret : String
  pub token_expiry : ℕ

unfoldable pub sign : Issuer → String → String
sign w payload = w.hashing.to_string (w.hashing.hash (concat payload w.jwt_secret))

-- `for (role : roles) payload += "|" + role;`
unfoldable pub append_roles : String → List String → String
append_roles payload [] = payload
append_roles payload (role ∷ roles) = append_roles (concat payload (concat "|" role)) roles

unfoldable pub generate_jwt_token : Issuer → String → List String → ℕ → String
unfolding append_roles sign
generate_jwt_token w username roles now =
    let stamped = concat (concat username "|") (w.hashing.to_string now) in
    let payload = append_roles stamped roles in concat (concat payload ".") (sign w payload)

-- The answer, with the user name if it was written; or `std::stoll` throws.
pub data Checked : Type 0 where
  answers : Bool → Option String → Checked
  throws : Checked

unfoldable pub check_payload : Issuer → ℕ → String → Checked
unfolding find_from substr
check_payload w now payload = elim (find_from payload "|" 0) [
  | none ↦ answers false none
  | some pipe ↦
      let username = substr payload 0 pipe in
      elim (find_from payload "|" (pipe + 1)) [
        | none ↦ answers false (some username)
        | some stamp_end ↦ elim (w.stoll (substr payload (pipe + 1) (stamp_end - pipe - 1))) [
          | none ↦ throws
          | some stamp ↦ answers (not (ltb w.token_expiry (now - stamp))) (some username)
        ]
      ]
]

unfoldable pub validate_jwt_token : Issuer → ℕ → String → Checked
unfolding find_from substr rest_from sign check_payload
validate_jwt_token w now token = elim (find_from token "." 0) [
  | none ↦ answers false none
  | some dot ↦
      let payload = substr token 0 dot in
      if rest_from token (dot + 1) =? sign w payload
      then check_payload w now payload
      else answers false none
]
