-- ===== src/Web/Protection/Tokens.antt =====
-- What becomes of a CSRF token (src/web/web_server.cpp).
use distributed_data_science.Prelude.{
  ◌≡◌, refl, true, false, ◌||◌, not, String, List, [], ◌∷◌, arith, if◌then◌else◌, string_key,
  =?_refl,
}
use distributed_data_science.Prelude.Maps.{insert}
use distributed_data_science.Prelude.Mutex.{returns, deadlock}
use distributed_data_science.Web.Protection.{
  Protection, generate_csrf_token, has_token, validate_csrf_token, log_security_event,
}

has_token-insert :
    (token session_id : String) (tokens : List (String × String))
    → has_token token (insert session_id token tokens) ≡ true
unfolding has_token insert
has_token-insert token session_id [] = ground (arith, =?_refl token)
has_token-insert token session_id ((j, t) ∷ tokens) =
    ground (arith, =?_refl token, has_token-insert token session_id tokens)

abbrev issued : String → String → Protection → Protection
issued token session_id p = record p { csrf_tokens = insert session_id token p.csrf_tokens }

-- With the mutex free, a generated token is valid at once, and a token that no session has is not
-- refused: with the security switched on its check never returns, since the refusal is logged while the mutex is
-- held.
csrf_outcome :
    (token session_id other : String) (p : Protection)
    → (generate_csrf_token token session_id false p ≡ returns (token, issued token session_id p))
      × (validate_csrf_token token false (issued token session_id p)
          ≡ returns (true, issued token session_id p))
      × (validate_csrf_token other false p ≡ (
          if not p.security_enabled || has_token other p.csrf_tokens
          then returns (true, p)
          else deadlock))
unfolding generate_csrf_token validate_csrf_token log_security_event
csrf_outcome token session_id other p =
    (refl, ground (arith, has_token-insert token session_id p.csrf_tokens), ground arith)
