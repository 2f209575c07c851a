-- ===== src/Web/Requests.antt =====
-- A request from its validation to its response (src/web/web_server.cpp): `handle_request_sync`, with
-- `sanitize_response` to `sanitize_json_string`; the validation is in Checks. The pages of the routing that the framework
-- replaced are an argument, but for what `handle_status` does to the counters, which is `Visit`, and the
-- handlers of routes are functions whose calls of `handle_status` are given in the same way. Handlers that
-- throw and the log are left out. A value of a response's
-- header is the list of its bytes, and a `char` is signed.
use Prim.Native.String.{len}
use distributed_data_science.Prelude.{
  ℕ, ◌+◌, ◌-◌, ◌*◌, ◌/◌, ◌%◌, Bool, true, false, not, ◌&&◌, ◌||◌, Option, none, some, String, List,
  [], ◌∷◌, ◌++◌, map, ltb, leb, ◌==◌, if◌then◌else◌, ◌=?◌, string_key, codes, is_empty,
}
use distributed_data_science.Prelude.Words.{increment}
use distributed_data_science.Prelude.Maps.{lookup, insert, map_values}
use distributed_data_science.Web.ResponseCache.Queries.{HttpRequest}
use distributed_data_science.Web.Accounts.{contains}
use distributed_data_science.Web.Sanitizing.{replace_each, remove, begins_with, occurs, any_occurs}
use distributed_data_science.Web.Routing.{Router, Behaviour, find_route, execute_middleware_stack}
use distributed_data_science.Web.Checks.{Limits, Refusal, validate_request}
pub mod Suspicion
pub mod Refusals

pub record Reply : Type 0 where
  pub status_code : ℕ
  pub headers : List (String × List ℕ)
  pub body : List ℕ

abbrev pub dangerous_chars : List (ℕ × List ℕ)
dangerous_chars =
    (b'"', codes "&quot;")
    ∷ (b'&', codes "&amp;")
    ∷ (b'\'', codes "&#x27;")
    ∷ (b'<', codes "&lt;")
    ∷ (b'>', codes "&gt;")
    ∷ []

unfoldable pub is_space : ℕ → Bool
is_space c = c == b' ' || c == b'\t' || c == b'\r' || c == b'\n'

unfoldable pub trim_front : List ℕ → List ℕ
unfolding is_space
trim_front [] = []
trim_front (c ∷ s) = if is_space c then trim_front s else c ∷ s

unfoldable pub trim_back : List ℕ → List ℕ
unfolding is_space
trim_back [] = []
trim_back (c ∷ s) = let rest = trim_back s in if is_space c && is_empty rest then [] else c ∷ rest

unfoldable pub sanitize_string : List ℕ → List ℕ
unfolding replace_each remove trim_front trim_back
sanitize_string input = trim_back (trim_front (replace_each dangerous_chars (remove 0 input)))

unfoldable pub hex_digit : ℕ → ℕ
hex_digit d = if ltb d 10 then b'0' + d else b'a' + (d - 10)

-- A byte from 128 on is negative as a `char`, and an `int` of it has eight digits.
unfoldable pub escape_char : ℕ → List ℕ
unfolding hex_digit
escape_char c =
    let low = hex_digit (c / 16) ∷ hex_digit (c % 16) ∷ [] in
    if leb 128 c
    then codes "\\uffffff" ++ low
    else if ltb c 32 && not (c == b'\t' || c == b'\n' || c == b'\r')
    then codes "\\u00" ++ low
    else c ∷ []

unfoldable pub escape_all : List ℕ → List ℕ
unfolding escape_char
escape_all [] = []
escape_all (c ∷ s) = escape_char c ++ escape_all s

unfoldable pub sanitize_json_string : List ℕ → List ℕ
unfolding remove escape_all
sanitize_json_string json_input = escape_all (remove 0 json_input)

unfoldable pub is_json : List (String × List ℕ) → Bool
unfolding lookup occurs
is_json headers = elim (lookup "Content-Type" headers) [
  | none ↦ false
  | some type ↦ occurs (codes "application/json") type
]

unfoldable pub sanitize_response : Reply → Reply
unfolding map_values sanitize_string is_json sanitize_json_string insert
sanitize_response response =
    let headers = map_values (λ name value. sanitize_string value) response.headers in
    record response {
      headers = insert "Referrer-Policy" (codes "strict-origin-when-cross-origin") (
          insert "X-XSS-Protection" (codes "1; mode=block") (
            insert "X-Frame-Options" (codes "SAMEORIGIN")
              (insert "X-Content-Type-Options" (codes "nosniff") headers)));
      body = if is_json headers then sanitize_json_string response.body else response.body;
    }

-- The pages of the older routing.
pub data Page : Type 0 where
  dashboard status jobs_list job_submit job_status hdfs_list cluster_info : Page

-- How a call of `handle_status` ends: with a cached response, with the refusal of a client over its
-- limit, or with a new response.
pub data Visit : Type 0 where
  hit limited fresh : Visit

unfoldable pub legacy_page : HttpRequest → Option Page
legacy_page req =
    if req.path =? "/" || req.path =? "/dashboard"
    then some dashboard
    else if req.path =? "/api/status"
    then some status
    else if req.path =? "/api/jobs" && req.method =? "GET"
    then some jobs_list
    else if req.path =? "/api/jobs" && req.method =? "POST"
    then some job_submit
    else if begins_with (codes req.path) (codes "/api/jobs/") && req.method =? "GET"
    then some job_status
    else if req.path =? "/api/hdfs/list"
    then some hdfs_list
    else if req.path =? "/api/cluster/info"
    then some cluster_info
    else none

abbrev pub RouteHandler : Type 0
RouteHandler = HttpRequest → Reply → Reply

pub record RequestServer : Type 0 where
  pub limits : Limits
  pub router : Router RouteHandler
  pub middleware_stack : List (HttpRequest → Reply → Behaviour HttpRequest Reply)
  pub routing_enabled : Bool
  pub middleware_enabled : Bool
  pub successful_requests : ℕ
  pub failed_requests : ℕ
  pub total_requests : ℕ

abbrev pub json_type : List (String × List ℕ)
json_type = ("Content-Type", codes "application/json") ∷ []

abbrev pub new_reply : Reply
new_reply = record { status_code = 200; headers = json_type; body = [] }

unfoldable pub refusal_reply : Refusal → Reply
refusal_reply (code, message) = record {
  status_code = code;
  headers = ("Access-Control-Allow-Origin", codes "*") ∷ json_type;
  body = codes "{\"error\": \"" ++ codes message ++ codes "\"}";
}

-- The stack always gives a response, so that `none` is not met.
unfoldable pub run_handler : RouteHandler → HttpRequest → RequestServer → Reply
unfolding execute_middleware_stack
run_handler handler req s =
    if s.middleware_enabled
    then elim (execute_middleware_stack s.middleware_stack handler req new_reply) [
      | none ↦ new_reply
      | some response ↦ response
    ]
    else handler req new_reply

unfoldable pub count_reply : Reply → RequestServer → RequestServer
unfolding increment
count_reply response s =
    let counted : RequestServer = record s { total_requests = increment s.total_requests } in
    if ltb response.status_code 400
    then record counted { successful_requests = increment s.successful_requests }
    else record counted { failed_requests = increment s.failed_requests }

-- `handle_status` counts a request of its own, and its refusals only as failed.
unfoldable pub handle_status : Visit → RequestServer → RequestServer
unfolding increment
handle_status hit s = s
handle_status limited s = record s { failed_requests = increment s.failed_requests }
handle_status fresh s = record s {
  successful_requests = increment s.successful_requests;
  total_requests = increment s.total_requests;
}

unfoldable pub count_visits : List Visit → RequestServer → RequestServer
unfolding handle_status
count_visits [] s = s
count_visits (visit ∷ visits) s = count_visits visits (handle_status visit s)

unfoldable pub visit_page : Page → List Visit → RequestServer → RequestServer
unfolding count_visits
visit_page status visits s = count_visits visits s
visit_page _ visits s = s

-- Each request comes with how the calls of `handle_status` end that are made for it: by the handler of
-- its route, which the middleware can call more than once, or for the page.
module _ (render : Page → HttpRequest → List Visit → Reply) where
  unfoldable pub legacy_reply : HttpRequest → List Visit → RequestServer → Reply × RequestServer
  unfolding legacy_page sanitize_string visit_page
  legacy_reply req visits s = elim (legacy_page req) [
    | some page ↦ (render page req visits, visit_page page visits s)
    | none ↦ (
      record new_reply {
        status_code = 404;
        body =
            codes "{\"error\": \"Endpoint not found\", \"path\": \""
            ++ sanitize_string (codes req.path)
            ++ codes "\"}";
      },
      s,
    )
  ]

  unfoldable pub route : HttpRequest → List Visit → RequestServer → Reply × RequestServer
  unfolding find_route run_handler count_visits legacy_reply
  route req visits s =
      let (handler, router) = find_route req.method req.path s.router in
      if s.routing_enabled
      then elim handler [
        | some h ↦ (run_handler h req s, count_visits visits (record s { router = router }))
        | none ↦ legacy_reply req visits (record s { router = router })
      ]
      else legacy_reply req visits s

  unfoldable pub handle_request_sync :
      HttpRequest → List Visit → RequestServer → Reply × RequestServer
  unfolding validate_request refusal_reply route sanitize_response count_reply increment
  handle_request_sync req visits s =
      let (routed, s') = route req visits s in
      let response = sanitize_response routed in
      elim (validate_request s.limits req) [
        | some refusal ↦ (
          refusal_reply refusal,
          record s {
            failed_requests = increment s.failed_requests;
            total_requests = increment s.total_requests;
          },
        )
        | none ↦ (response, count_reply response s')
      ]
