-- ===== src/Web/Requests/Suspicion.antt =====
-- Which contents count as suspicious (src/web/web_server.cpp, `contains_suspicious_content`).
use distributed_data_science.Prelude.{
  ℕ, ◌≡◌, refl, Bool, true, false, ◌&&◌, ◌||◌, List, [], ◌∷◌, arith, leb, if◌then◌else◌, codes,
  is_empty,
}
use distributed_data_science.Web.Sanitizing.{begins_with, occurs, any_occurs}
use distributed_data_science.Web.Checks.{
  upper, contains_suspicious_content, upper_sql_patterns, upper_xss_patterns,
}

abbrev is_lower : ℕ → Bool
is_lower c = leb b'a' c && leb c b'z'

abbrev any_lower : List ℕ → Bool
any_lower [] = false
any_lower (c ∷ s) = let rest = any_lower s in if is_lower c then true else rest

begins_with-lower : (s p : List ℕ) → any_lower p ≡ true → begins_with (upper s) p ≡ false
unfolding upper
begins_with-lower s [] h = cc
begins_with-lower [] (c ∷ p) h = refl
begins_with-lower (x ∷ s) (c ∷ p) h = ground (arith, begins_with-lower s p)

occurs-lower : (s p : List ℕ) → any_lower p ≡ true → occurs p (upper s) ≡ false
unfolding occurs upper
occurs-lower [] p h = begins_with-lower [] p h
occurs-lower (x ∷ s) p h = ground (arith, begins_with-lower (x ∷ s) p, occurs-lower s p)

-- Of the patterns of a path traversal only `../` and `..\` are ever found: the others have small
-- letters, and the text that is searched has none left.
pub contains_suspicious_content-blind :
    (content : List ℕ)
    → contains_suspicious_content content ≡ (
        if is_empty content
        then false
        else any_occurs upper_sql_patterns (upper content)
          || any_occurs upper_xss_patterns (upper content)
          || any_occurs ("../" ∷ "..\\" ∷ []) (upper content))
unfolding contains_suspicious_content any_occurs
contains_suspicious_content-blind content = ground (
  arith,
  occurs-lower content (codes "..%2f") refl,
  occurs-lower content (codes "..%5c") refl,
  occurs-lower content (codes "%2e%2e%2f") refl,
  occurs-lower content (codes "%2e%2e%5c") refl,
)
