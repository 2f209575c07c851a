-- ===== src/Web/Sanitizing.antt =====
-- What `WebServer` does to a text before it shows it (src/web/web_server.cpp): `sanitize_input` and
-- `encode_html_entities`, and the patterns that it looks for. A text is the list of its bytes.
-- `is_sql_injection_attempt` and `is_xss_attempt` also log the pattern: see Web/Protection.
use distributed_data_science.Prelude.{
  ℕ, ◌+◌, Bool, true, false, not, ◌&&◌, ◌||◌, String, List, [], ◌∷◌, ◌++◌, map, leb, ◌==◌,
  if◌then◌else◌, keep, codes,
}
pub mod Entities

-- `while ((pos = encoded.find(c, pos)) != npos) { encoded.replace(pos, 1, r); pos += r.length(); }`
unfoldable pub replace_all : ℕ → List ℕ → List ℕ → List ℕ
replace_all c r [] = []
replace_all c r (x ∷ s) = let rest = replace_all c r s in if x == c then r ++ rest else x ∷ rest

-- A `std::map` is walked in the order of its keys.
unfoldable pub replace_each : List (ℕ × List ℕ) → List ℕ → List ℕ
unfolding replace_all
replace_each [] s = s
replace_each ((c, r) ∷ entities) s = replace_each entities (replace_all c r s)

abbrev pub entities : List (ℕ × List ℕ)
entities =
    (b'"', codes "&quot;")
    ∷ (b'&', codes "&amp;")
    ∷ (b'\'', codes "&#39;")
    ∷ (b'<', codes "&lt;")
    ∷ (b'>', codes "&gt;")
    ∷ []

unfoldable pub encode_html_entities : List ℕ → List ℕ
unfolding replace_each
encode_html_entities input = replace_each entities input

-- `s.erase(std::remove(s.begin(), s.end(), c), s.end())`.
unfoldable pub remove : ℕ → List ℕ → List ℕ
remove c s = keep (λ x. not (x == c)) s

unfoldable pub remove_each : List ℕ → List ℕ → List ℕ
unfolding remove
remove_each [] s = s
remove_each (c ∷ cs) s = remove_each cs (remove c s)

abbrev pub dangerous : List ℕ
dangerous = codes "<>\"'&"

unfoldable pub sanitize_input : Bool → List ℕ → List ℕ
unfolding encode_html_entities remove remove_each
sanitize_input security_enabled input =
    if security_enabled
    then remove_each dangerous (encode_html_entities (remove 0 input))
    else input

-- `::tolower` on ASCII.
unfoldable pub lower : List ℕ → List ℕ
lower = map (λ c. if leb b'A' c && leb c b'Z' then c + 32 else c)

abbrev pub begins_with : List ℕ → List ℕ → Bool
begins_with s [] = true
begins_with [] (c ∷ p) = false
begins_with (x ∷ s) (c ∷ p) = let rest = begins_with s p in if x == c then rest else false

-- `s.find(pattern) != npos`.
unfoldable pub occurs : List ℕ → List ℕ → Bool
occurs pattern [] = begins_with [] pattern
occurs pattern (x ∷ s) = let later = occurs pattern s in begins_with (x ∷ s) pattern || later

unfoldable pub any_occurs : List String → List ℕ → Bool
unfolding occurs
any_occurs [] s = false
any_occurs (p ∷ patterns) s = occurs (codes p) s || any_occurs patterns s

abbrev pub sql_patterns : List String
sql_patterns =
    "select" ∷ "insert" ∷ "update" ∷ "delete" ∷ "drop" ∷ "create" ∷ "alter" ∷ "union" ∷ "exec"
    ∷ "execute" ∷ "script" ∷ "javascript" ∷ "vbscript" ∷ "onload" ∷ "onerror" ∷ "1=1" ∷ "1=0"
    ∷ "or 1" ∷ "and 1" ∷ "union select" ∷ "information_schema" ∷ []

abbrev pub xss_patterns : List String
xss_patterns =
    "<script" ∷ "javascript:" ∷ "vbscript:" ∷ "onload=" ∷ "onerror=" ∷ "onclick=" ∷ "onmouseover="
    ∷ "onfocus=" ∷ "onblur=" ∷ "eval(" ∷ "document.cookie" ∷ "window.location" ∷ "alert("
    ∷ "confirm(" ∷ "prompt(" ∷ []
