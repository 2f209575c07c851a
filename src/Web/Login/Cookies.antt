-- ===== src/Web/Login/Cookies.antt =====
-- Which session a cookie names (src/web/web_server.cpp, `extract_session_id`).
use Prim.Native.Char.{len_utf8}
use Prim.Native.String.{len, find, begins}
use Prim.Native.String.append as append_clauses
use Prim.Native.String.find as find_clauses
use native.Mathlib.Nat.{zero-add}
use text.Mathlib.TextPositions.{len-append, slice_all, slice-append_right}
use distributed_data_science.Prelude.{
  ℕ, ◌+◌, ◌-◌, ◌≡◌, refl, ap, ◌∙◌, some, String, arith, string_key, concat,
}
use distributed_data_science.Prelude.Maps.{lookup}
use distributed_data_science.Web.ResponseCache.Queries.{HttpRequest}
use distributed_data_science.Web.Texts.{find_from, rest_from, substr}
use distributed_data_science.Web.Texts.Laws.{
  Lacks, find_from-first, find_from-missing, substr-append,
}
use distributed_data_science.Web.Login.{Settings, extract_session_id}

begins_empty : (s : String) (y n : ℕ) → begins s String.[] y n ≡ y
begins_empty String.[] y n = refl
begins_empty (String.◌∷◌ c s) y n = refl

begins-append : (t s : String) (y n : ℕ) → begins (concat t s) t y n ≡ y
begins-append String.[] s y n = begins_empty (concat String.[] s) y n
begins-append (String.◌∷◌ d t) s y n =
    ap (λ w. begins w (String.◌∷◌ d t) y n) (append_clauses.cons d t s)
    ∙ ground (arith, begins-append t s y n)

find_at_once : (s t : String) → ((n : ℕ) → begins s t 0 n ≡ 0) → find s t ≡ 0
find_at_once String.[] t h = find_clauses.nil t ∙ h 1
find_at_once (String.◌∷◌ c s) t h = find_clauses.cons c s t ∙ h (len_utf8 c + find s t)

find_from-start : (t s : String) → find_from (concat t s) t 0 ≡ some 0
unfolding find_from rest_from
find_from-start t s =
    ground (arith, slice_all (concat t s), find_at_once (concat t s) t (begins-append t s 0))

substr-rest : (u s : String) → substr (concat u s) (len u) (len s) ≡ s
unfolding substr
substr-rest u s = slice-append_right u s

module _ (t : Settings) (req : HttpRequest) (session_id : String)
    (plain : Lacks b';' session_id) where
  abbrev key : String
  key = concat t.session_cookie_name "="

  -- A cookie of the session alone names it.
  pub extract_session_id-alone :
      lookup "cookie" req.headers ≡ some (concat key session_id)
      → extract_session_id t req ≡ session_id
  unfolding extract_session_id
  extract_session_id-alone e =
      let size : len (concat key session_id) - len key ≡ len session_id =
        omega (arith, len-append key session_id) in
      ground (
        arith,
        find_from-start key session_id,
        zero-add (len key),
        find_from-missing ";" key session_id plain,
        size,
        substr-rest key session_id,
      )

  -- So does one with more cookies behind it.
  pub extract_session_id-first :
      (others : String)
      → lookup "cookie" req.headers ≡ some (concat key (concat session_id (String.◌∷◌ ";" others)))
      → extract_session_id t req ≡ session_id
  unfolding extract_session_id
  extract_session_id-first others e =
      let rest : String = String.◌∷◌ ";" others in
      let size : len key + len session_id - len key ≡ len session_id = omega arith in
      ground (
        arith,
        find_from-start key (concat session_id rest),
        zero-add (len key),
        find_from-first ";" key session_id others plain,
        size,
        substr-append key session_id rest,
      )
