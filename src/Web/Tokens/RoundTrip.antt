-- ===== src/Web/Tokens/RoundTrip.antt =====
-- What a token that the server made says when it comes back.
use Prim.Native.Char.{Char}
use Prim.Native.String.{len}
use native.Mathlib.Nat.{zero-add}
use text.Mathlib.TextLemmas.{append_assoc, append-nil}
use text.Mathlib.TextPositions.{len-append, slice-append_left}
use distributed_data_science.Prelude.{
  ℕ, ◌+◌, ◌-◌, ◌≡◌, refl, sym, ◌∙◌, ap, not, ◌&&◌, some, String, List, [], ◌∷◌, arith, ltb, =?_refl,
  string_key, concat, All, is_empty, inl, inr, List-cases,
}
use distributed_data_science.Web.Texts.{substr, rest_from, find_from}
use distributed_data_science.Web.Texts.Laws.{Lacks, Lacks-append, rest_from-append}
use distributed_data_science.Web.Tokens.{
  Issuer, sign, append_roles, generate_jwt_token, answers, check_payload, validate_jwt_token,
}
use distributed_data_science.Web.Tokens.Payload.{
  bar, one-append, find_from_start, check_payload-fields, check_payload_short,
}

abbrev dot : Char
dot = "."

-- A token of the right signature is judged by its payload.
validate-signed :
    (w : Issuer) (now : ℕ) (payload : String)
    → Lacks b'.' payload
    → validate_jwt_token w now (concat (concat payload ".") (sign w payload))
      ≡ check_payload w now payload
unfolding validate_jwt_token
validate-signed w now payload h =
    ground (arith, dot_at, behind_dot, before_dot, =?_refl (sign w payload))
  where
    split_at_dot :
        concat (concat payload ".") (sign w payload)
        ≡ concat payload (String.◌∷◌ dot (sign w payload))
    split_at_dot =
        append_assoc payload "." (sign w payload)
        ∙ ap (concat payload) (one-append dot (sign w payload))

    dot_at : find_from (concat (concat payload ".") (sign w payload)) "." 0 ≡ some (len payload)
    dot_at = rw split_at_dot (find_from_start dot payload (sign w payload) h)

    behind_dot :
        rest_from (concat (concat payload ".") (sign w payload)) (len payload + 1) ≡ sign w payload
    behind_dot =
        rw (← len-append payload ".") (rest_from-append (concat payload ".") (sign w payload))

    before_dot : substr (concat (concat payload ".") (sign w payload)) 0 (len payload) ≡ payload
    before_dot =
        unfold substr in
        (rw (split_at_dot, zero-add (len payload))
          (slice-append_left payload (String.◌∷◌ dot (sign w payload))))

-- What the roles add to a payload.
roles_text : List String → String
roles_text [] = ""
roles_text (r ∷ rs) = String.◌∷◌ bar (concat r (roles_text rs))

append_roles-concat :
    (payload : String) (roles : List String)
    → append_roles payload roles ≡ concat payload (roles_text roles)
unfolding append_roles roles_text
append_roles-concat payload [] = sym (append-nil payload)
append_roles-concat payload (r ∷ rs) =
    append_roles-concat (concat payload (concat "|" r)) rs
    ∙ append_assoc payload (concat "|" r) (roles_text rs)
    ∙ ap (concat payload)
        (append_assoc "|" r (roles_text rs) ∙ one-append bar (concat r (roles_text rs)))

roles_text-Lacks : (roles : List String) → All (Lacks b'.') roles → Lacks b'.' (roles_text roles)
unfolding roles_text
roles_text-Lacks [] h = tt
roles_text-Lacks (r ∷ rs) h =
    (refl, Lacks-append b'.' r (roles_text rs) h.0 (roles_text-Lacks rs h.1))

-- The payload that `generate_jwt_token` signs.
issued_payload :
    (u stamp : String) (roles : List String)
    → append_roles (concat (concat u "|") stamp) roles
      ≡ concat u (String.◌∷◌ bar (concat stamp (roles_text roles)))
issued_payload u stamp roles =
    append_roles-concat (concat (concat u "|") stamp) roles
    ∙ append_assoc (concat u "|") stamp (roles_text roles)
    ∙ append_assoc u "|" (concat stamp (roles_text roles))
    ∙ ap (concat u) (one-append bar (concat stamp (roles_text roles)))

module _ (w : Issuer) (u : String) (roles : List String) (issued now : ℕ) where
  validate-issued :
      Lacks b'.' u
      → Lacks b'.' (w.hashing.to_string issued)
      → All (Lacks b'.') roles
      → validate_jwt_token w now (generate_jwt_token w u roles issued)
        ≡ check_payload w now
            (concat u (String.◌∷◌ bar (concat (w.hashing.to_string issued) (roles_text roles))))
  unfolding generate_jwt_token
  validate-issued name digits plain = rw (issued_payload u (w.hashing.to_string issued) roles) (
      validate-signed w now _ (
        Lacks-append b'.' u _ name (
          refl,
          Lacks-append b'.' (w.hashing.to_string issued) _ digits (roles_text-Lacks roles plain),
        )))

  check_issued :
      Lacks b'|' u
      → Lacks b'|' (w.hashing.to_string issued)
      → w.stoll (w.hashing.to_string issued) ≡ some issued
      → check_payload w now
          (concat u (String.◌∷◌ bar (concat (w.hashing.to_string issued) (roles_text roles))))
        ≡ answers (not (is_empty roles) && not (ltb w.token_expiry (now - issued))) (some u)
  unfolding roles_text
  check_issued name digits read = elim (List-cases roles) [
    | inl e ↦
        rw (e, append-nil (w.hashing.to_string issued))
          (check_payload_short u (w.hashing.to_string issued) w now name digits)
    | inr (r, rs, e) ↦ rw e (
        check_payload-fields u (w.hashing.to_string issued) (concat r (roles_text rs)) name digits w
          now
        ∙ rw read refl)
  ]

  -- A token names the user that it was made for, and it is valid exactly when the user has a role and
  -- the token is not older than the expiry: the token of a user with no role is refused at once.
  -- This is so if the name and the written time have neither a dot nor a `|`, no role has a dot, and
  -- the time is read as it was written.
  pub validate-generate :
      Lacks b'.' u
      → Lacks b'|' u
      → Lacks b'.' (w.hashing.to_string issued)
      → Lacks b'|' (w.hashing.to_string issued)
      → All (Lacks b'.') roles
      → w.stoll (w.hashing.to_string issued) ≡ some issued
      → validate_jwt_token w now (generate_jwt_token w u roles issued)
        ≡ answers (not (is_empty roles) && not (ltb w.token_expiry (now - issued))) (some u)
  validate-generate name name' digits digits' plain read =
      validate-issued name digits plain ∙ check_issued name' digits' read

-- A user name may hold a `|`: the token of a user whose name is another one, a `|` and a stamp is a
-- token of that other user, and its age is that of the stamp, whatever the user's roles are. This is
-- so if the other name and the stamp have neither a dot nor a `|`, the written time and the roles
-- have no dot, and the stamp is read as a number.
pub validate-forged :
    (w : Issuer) (u stamp : String) (roles : List String) (issued t now : ℕ)
    → Lacks b'.' u
    → Lacks b'|' u
    → Lacks b'.' stamp
    → Lacks b'|' stamp
    → Lacks b'.' (w.hashing.to_string issued)
    → All (Lacks b'.') roles
    → w.stoll stamp ≡ some t
    → validate_jwt_token w now (generate_jwt_token w (concat u (concat "|" stamp)) roles issued)
      ≡ answers (not (ltb w.token_expiry (now - t))) (some u)
validate-forged w u stamp roles issued t now dots name stamp_dots digits issued_dots plain read =
    let rest = concat (w.hashing.to_string issued) (roles_text roles) in
    let forged : concat (concat u (concat "|" stamp)) (String.◌∷◌ bar rest)
        ≡ concat u (String.◌∷◌ bar (concat stamp (String.◌∷◌ bar rest))) =
      append_assoc u (concat "|" stamp) (String.◌∷◌ bar rest)
      ∙ ap (concat u) (
          append_assoc "|" stamp (String.◌∷◌ bar rest)
          ∙ one-append bar (concat stamp (String.◌∷◌ bar rest))) in
    validate-issued w (concat u (concat "|" stamp)) roles issued now
      (Lacks-append b'.' u (concat "|" stamp) dots
        (Lacks-append b'.' "|" stamp (refl, tt) stamp_dots))
      issued_dots plain
    ∙ ap (check_payload w now) forged
    ∙ check_payload-fields u stamp rest name digits w now
    ∙ rw read refl
