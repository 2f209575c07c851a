-- ===== src/Web/Checks.antt =====
-- What a request is checked against before it is handled (src/web/web_server.cpp): `validate_request` and
-- `contains_suspicious_content`. The first error in the order of the fields is given.
use Prim.Native.String.{len}
use distributed_data_science.Prelude.{
  ℕ, ◌-◌, Bool, false, not, ◌&&◌, ◌||◌, Option, none, some, String, List, [], ◌∷◌, map, ltb, leb,
  if◌then◌else◌, ◌=?◌, string_key, codes, is_empty,
}
use distributed_data_science.Web.ResponseCache.Queries.{HttpRequest}
use distributed_data_science.Web.Accounts.{contains}
use distributed_data_science.Web.Sanitizing.{occurs, any_occurs}

pub record Limits : Type 0 where
  pub validation_enabled : Bool
  pub max_request_size : ℕ
  pub max_header_size : ℕ

-- `::toupper` on ASCII.
unfoldable pub upper : List ℕ → List ℕ
upper = map (λ c. if leb b'a' c && leb c b'z' then c - 32 else c)

abbrev pub upper_sql_patterns : List String
upper_sql_patterns =
    "SELECT" ∷ "INSERT" ∷ "UPDATE" ∷ "DELETE" ∷ "DROP" ∷ "CREATE" ∷ "ALTER" ∷ "EXEC" ∷ "UNION" ∷ []

abbrev pub upper_xss_patterns : List String
upper_xss_patterns =
    "<SCRIPT" ∷ "JAVASCRIPT:" ∷ "ONLOAD=" ∷ "ONERROR=" ∷ "ONCLICK=" ∷ "ONMOUSEOVER=" ∷ []

abbrev pub traversal_patterns : List String
traversal_patterns = "../" ∷ "..\\" ∷ "..%2f" ∷ "..%5c" ∷ "%2e%2e%2f" ∷ "%2e%2e%5c" ∷ []

unfoldable pub contains_suspicious_content : List ℕ → Bool
unfolding upper any_occurs
contains_suspicious_content content =
    if is_empty content
    then false
    else any_occurs upper_sql_patterns (upper content)
      || any_occurs upper_xss_patterns (upper content)
      || any_occurs traversal_patterns (upper content)

-- The status code and the message of a request that is not valid.
abbrev pub Refusal : Type 0
Refusal = ℕ × String

unfoldable pub check_fields :
    ℕ → ℕ → String → String → List (String × String) → Option Refusal → Option Refusal
unfolding contains_suspicious_content
check_fields key_limit limit too_large suspicious [] next = next
check_fields key_limit limit too_large suspicious ((key, value) ∷ fields) next =
    let others = check_fields key_limit limit too_large suspicious fields next in
    if ltb key_limit (len key) || ltb limit (len value)
    then some (400, too_large)
    else if contains_suspicious_content (codes value)
    then some (400, suspicious)
    else others

abbrev pub allowed_methods : List String
allowed_methods = "GET" ∷ "POST" ∷ "PUT" ∷ "DELETE" ∷ "OPTIONS" ∷ "HEAD" ∷ []

unfoldable pub validate_request : Limits → HttpRequest → Option Refusal
unfolding contains occurs check_fields
validate_request v req =
    if not v.validation_enabled
    then none
    else if ltb v.max_request_size (len req.body)
    then some (413, "Request body too large")
    else if not (contains req.method allowed_methods)
    then some (405, "HTTP method not allowed")
    else if req.path =? "" || ltb 2048 (len req.path)
    then some (400, "Invalid request path")
    else if occurs (codes "..") (codes req.path) || occurs (codes "//") (codes req.path)
    then some (400, "Invalid path characters detected")
    else check_fields v.max_header_size v.max_header_size "Header too large"
        "Suspicious content detected in headers" req.headers
        (check_fields 256 1024 "Query parameter too large"
          "Suspicious content detected in query parameters" req.query_params none)
