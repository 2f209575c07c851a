-- ===== src/Web/Negotiation.antt =====
-- Content negotiation of `WebServer` (src/web/web_server.cpp): `negotiate_content_type` to
-- `extract_client_info`. A quality is of any type with the comparison and the `std::stod` that the
-- code uses. A map has no order: the two wildcards choose the same option, and what a map of headers
-- keeps of two names that become one is the last entry's here.
use Prim.Native.Char.{Char, code}
use Prim.Native.String
use distributed_data_science.Prelude.{
  ℕ, ◌+◌, ◌-◌, Bool, true, false, not, ◌&&◌, ◌||◌, Option, none, some, String, List, [], ◌∷◌, ◌++◌,
  leb, ◌==◌, if◌then◌else◌, ◌=?◌, string_key, concat,
}
use distributed_data_science.Prelude.Maps.{lookup, lookup_or, insert, has}
use distributed_data_science.Web.Texts.{rest_from, split_string}
use distributed_data_science.Web.ResponseCache.Queries.{HttpRequest}
pub mod Choice
pub mod Quality

pub record Numbers (Q : Type 0) : Type 0 where
  pub zero : Q
  pub one : Q
  -- `a > b`.
  pub above : Q → Q → Bool
  -- `none` where `std::stod` throws.
  pub stod : String → Option Q

unfoldable pub is_blank : Char → Bool
is_blank c = code c == b' ' || code c == b'\t'

-- `type.erase(0, type.find_first_not_of(" \t"))`.
unfoldable pub trim_left : String → String
unfolding is_blank
trim_left String.[] = String.[]
trim_left (String.◌∷◌ c s) = if is_blank c then trim_left s else String.◌∷◌ c s

-- `type.erase(type.find_last_not_of(" \t") + 1)`.
unfoldable pub trim_right : String → String
unfolding is_blank
trim_right String.[] = String.[]
trim_right (String.◌∷◌ c s) =
    let rest = trim_right s in if is_blank c && rest =? "" then String.[] else String.◌∷◌ c rest

-- `s.find("q=") == 0`.
unfoldable pub is_quality : String → Bool
is_quality (String.◌∷◌ c (String.◌∷◌ d s)) = code c == b'q' && code d == b'='
is_quality (String.◌∷◌ c String.[]) = false
is_quality String.[] = false

module _ {Q : Type 0} (n : Numbers Q) where
  -- The loop over the parts behind the type.
  unfoldable pub quality_of : List String → Q
  unfolding is_quality rest_from
  quality_of [] = n.one
  quality_of (part ∷ parts) =
      let others = quality_of parts in
      if is_quality part
      then elim (n.stod (rest_from part 2)) [ none ↦ n.zero | some q ↦ q ]
      else others

  -- One turn of the loop over the parts between commas.
  unfoldable pub add_part : String → List (String × Q) → List (String × Q)
  unfolding quality_of trim_left trim_right split_string insert
  add_part part qualities = elim (split_string part b';') [
    | [] ↦ qualities
    | type ∷ parts ↦ insert (trim_right (trim_left type)) (quality_of parts) qualities
  ]

  unfoldable pub add_parts : List String → List (String × Q) → List (String × Q)
  unfolding add_part
  add_parts [] qualities = qualities
  add_parts (part ∷ parts) qualities = add_parts parts (add_part part qualities)

  unfoldable pub parse_quality_values : String → List (String × Q)
  unfolding add_parts split_string
  parse_quality_values header_value = add_parts (split_string header_value b',') []

  -- The first loop of `select_best_match`: the best option so far, with its quality.
  unfoldable pub best_option : List (String × Q) → List String → String × Q → String × Q
  unfolding lookup
  best_option qualities [] best = best
  best_option qualities (option ∷ options) best =
      best_option qualities options (elim (lookup option qualities) [
        | none ↦ best
        | some q ↦ if n.above q best.1 then (option, q) else best
      ])

  -- The second loop.
  unfoldable pub wildcards : String → List (String × Q) → String × Q → String × Q
  wildcards first [] best = best
  wildcards first ((type, q) ∷ qualities) best =
      wildcards first qualities
        (if (type =? "*/*" || type =? "*") && n.above q best.1 then (first, q) else best)

  -- Of the options `first ∷ options`: an empty list is never given.
  unfoldable pub select_best_match : List (String × Q) → String → List String → String
  unfolding best_option wildcards
  select_best_match qualities first options =
      (wildcards first qualities (best_option qualities (first ∷ options) (first, n.zero))).0

  unfoldable pub parse_accept_header : String → String → List String → String
  unfolding parse_quality_values select_best_match
  parse_accept_header accept first options =
      select_best_match (parse_quality_values accept) first options

  -- `negotiate_content_type`, `negotiate_encoding` and `negotiate_language` by their header and
  -- default.
  unfoldable pub negotiate : Bool → String → String → HttpRequest → List String → String
  unfolding lookup parse_accept_header
  negotiate enabled default header req [] = default
  negotiate enabled default header req (first ∷ options) =
      if not enabled then default else elim (lookup header req.headers) [
        | none ↦ first
        | some accept ↦ parse_accept_header accept first options
      ]

  unfoldable pub get_preferred_content_type : Bool → String → HttpRequest → String
  unfolding negotiate
  get_preferred_content_type enabled default req =
      negotiate enabled default "Accept" req
        ("application/json" ∷ "application/xml" ∷ "text/html" ∷ "text/plain" ∷ [])

  unfoldable pub get_preferred_encoding : Bool → String → HttpRequest → String
  unfolding negotiate
  get_preferred_encoding enabled default req =
      negotiate enabled default "Accept-Encoding" req ("gzip" ∷ "deflate" ∷ "identity" ∷ [])

  unfoldable pub get_preferred_language : Bool → String → HttpRequest → String
  unfolding negotiate
  get_preferred_language enabled default req =
      negotiate enabled default "Accept-Language" req ("en" ∷ "es" ∷ "fr" ∷ "de" ∷ "zh" ∷ [])

  -- `supports_content_type`, and with `*` and their headers `supports_encoding` and
  -- `supports_language`.
  unfoldable pub supports : String → String → HttpRequest → String → Bool
  unfolding lookup has parse_quality_values
  supports header wildcard req option = elim (lookup header req.headers) [
    | none ↦ true
    | some accept ↦
        has option (parse_quality_values accept) || has wildcard (parse_quality_values accept)
  ]

-- The names of the headers that a response varies with.
unfoldable pub present : List String → HttpRequest → List String
unfolding has
present [] req = []
present (header ∷ headers) req =
    let rest = present headers req in if has header req.headers then header ∷ rest else rest

unfoldable pub join : List String → String
join [] = ""
join (field ∷ []) = field
join (field ∷ field' ∷ fields) = concat field (concat ", " (join (field' ∷ fields)))

unfoldable pub add_vary_header : List String → List (String × String) → List (String × String)
unfolding insert join
add_vary_header [] headers = headers
add_vary_header (field ∷ fields) headers = insert "Vary" (join (field ∷ fields)) headers

unfoldable pub add_content_negotiation_headers :
    HttpRequest → List (String × String) → List (String × String)
unfolding present add_vary_header
add_content_negotiation_headers req headers =
    add_vary_header (present ("Accept" ∷ "Accept-Encoding" ∷ "Accept-Language" ∷ []) req) headers

unfoldable pub extract_client_info : HttpRequest → String
unfolding lookup
extract_client_info req = elim (lookup "x-forwarded-for" req.headers) [
  | some client ↦ client
  | none ↦ elim (lookup "x-real-ip" req.headers) [ some client ↦ client | none ↦ "unknown" ]
]

-- The header that makes `validate_request_headers` throw, if one does.
unfoldable pub validate_request_headers : List (String × String) → Option String
validate_request_headers [] = none
validate_request_headers ((name, value) ∷ headers) =
    if name =? "" || value =? "" then some name else validate_request_headers headers
