-- ===== src/Web/Routing.antt =====
-- The routes of `WebServer` and its middleware (src/web/web_server.cpp): `add_route` to
-- `add_middleware`, and `find_route` to `execute_middleware_stack`. A handler is any type for the
-- routes. The type of a route's handler differs between the header and its calls; here it takes the
-- request and the response, and returns a response.
use Prim.Native.Nat.{Ordering}
use Prim.Native.Char.{Char, code}
use Prim.Native.String
use Prim.Native.String.{len, compare}
use distributed_data_science.Prelude.{
  ℕ, zero, suc, ◌-◌, Bool, true, false, ◌&&◌, ◌||◌, Option, none, some, String, List, [], ◌∷◌,
  if◌then◌else◌, ◌==◌, ◌=?◌, string_key, concat, get_elem?, length,
}
use distributed_data_science.Prelude.Maps.{lookup, insert}
use distributed_data_science.Web.Texts.{substr, split_string}
pub mod Cache
pub mod Patterns
pub mod Middleware

module _ {H : Type 0} where
  -- `m[k] = v` in a map that is walked in the order of its keys.
  unfoldable pub insert_sorted : String → H → List (String × H) → List (String × H)
  insert_sorted k v [] = (k, v) ∷ []
  insert_sorted k v ((j, w) ∷ m) =
      let rest = insert_sorted k v m in
      elim (compare k j) [
        | Ordering.lt ↦ (k, v) ∷ (j, w) ∷ m
        | Ordering.eq ↦ (k, v) ∷ m
        | Ordering.gt ↦ (j, w) ∷ rest
      ]

pub record Router (H : Type 0) : Type 0 where
  pub routes : List (String × H)
  pub route_cache : List (String × H)
  pub route_cache_enabled : Bool

abbrev pub route_key : String → String → String
route_key method path = concat (concat method ":") path

-- `pattern.back() == '*'`; no key of a route is empty.
unfoldable pub ends_with_star : String → Bool
ends_with_star String.[] = false
ends_with_star (String.◌∷◌ c String.[]) = code c == b'*'
ends_with_star (String.◌∷◌ c (String.◌∷◌ d s)) = ends_with_star (String.◌∷◌ d s)

unfoldable pub is_parameter : String → Bool
is_parameter String.[] = false
is_parameter (String.◌∷◌ c s) = code c == b':'

-- The loop over the parts, with the test of their number.
unfoldable pub match_parts : List String → List String → Bool
unfolding is_parameter
match_parts [] [] = true
match_parts [] (q ∷ qs) = false
match_parts (p ∷ ps) [] = false
match_parts (p ∷ ps) (q ∷ qs) =
    let rest = match_parts ps qs in
    if p =? "" && q =? ""
    then rest
    else if p =? "" || q =? ""
    then false
    else if is_parameter p || p =? q
    then rest
    else false

unfoldable pub match_route_pattern : String → String → Bool
unfolding ends_with_star substr match_parts split_string
match_route_pattern pattern path =
    if pattern =? path
    then true
    else if ends_with_star pattern
        && substr path 0 (len pattern - 1) =? substr pattern 0 (len pattern - 1)
    then true
    else match_parts (split_string pattern b'/') (split_string path b'/')

module _ {H : Type 0} where
  unfoldable pub add_route : String → String → H → Router H → Router H
  unfolding insert_sorted
  add_route method path handler r = record r {
    routes = insert_sorted (route_key method path) handler r.routes;
  }

  unfoldable pub add_route_group : String → List (String × String × H) → Router H → Router H
  unfolding add_route
  add_route_group prefix [] r = r
  add_route_group prefix ((method, path, handler) ∷ group) r =
      add_route_group prefix group (add_route method (concat prefix path) handler r)

  unfoldable pub first_match : List (String × H) → String → Option H
  unfolding match_route_pattern
  first_match [] key = none
  first_match ((pattern, handler) ∷ routes) key =
      if match_route_pattern pattern key then some handler else first_match routes key

  -- `if (route_cache_enabled_) route_cache_[route_key] = handler; return handler;`
  unfoldable pub cache_route : String → H → Router H → Option H × Router H
  unfolding insert
  cache_route key handler r = (
    some handler,
    if r.route_cache_enabled
        then record r { route_cache = insert key handler r.route_cache }
        else r,
  )

  -- Past the look into the cache.
  unfoldable pub search_routes : String → Router H → Option H × Router H
  unfolding lookup first_match cache_route
  search_routes key r = elim (lookup key r.routes) [
    | some handler ↦ cache_route key handler r
    | none ↦ elim (first_match r.routes key) [
      | some handler ↦ cache_route key handler r
      | none ↦ (none, r)
    ]
  ]

  unfoldable pub find_route : String → String → Router H → Option H × Router H
  unfolding lookup search_routes
  find_route method path r =
      let searched = search_routes (route_key method path) r in
      if r.route_cache_enabled
      then elim (lookup (route_key method path) r.route_cache) [
        | some handler ↦ (some handler, r)
        | none ↦ searched
      ]
      else searched

-- What a middleware does with its request and the response: it ends with a response, or calls `next`
-- and goes on with what that made of the response.
pub data Behaviour (Req Res : Type 0) : Type 0 where
  finishes : Res → Behaviour Req Res
  calls_next : Req → Res → (Res → Behaviour Req Res) → Behaviour Req Res

module _ {Req Res : Type 0} where
  -- `next` takes `current_middleware` and gives it back.
  unfoldable pub run_behaviour :
      (ℕ → Req → Res → Option (Res × ℕ)) → Behaviour Req Res → ℕ → Option (Res × ℕ)
  run_behaviour next (finishes res) i = some (res, i)
  run_behaviour next (calls_next req res go_on) i = elim (next i req res) [
    | none ↦ none
    | some (res', j) ↦ run_behaviour next (go_on res') j
  ]

module _ {Req Res : Type 0} (stack : List (Req → Res → Behaviour Req Res))
    (handler : Req → Res → Res) where
  -- The fuel bounds how deep the calls of `next` stand in each other.
  unfoldable pub next : ℕ → ℕ → Req → Res → Option (Res × ℕ)
  unfolding run_behaviour
  next zero i req res = none
  next (suc fuel) i req res = elim (get_elem? stack i) [
    | none ↦ some (handler req res, i)
    | some middleware ↦ run_behaviour (next fuel) (middleware req res) (suc i)
  ]

  unfoldable pub execute_middleware_stack : Req → Res → Option Res
  unfolding next
  execute_middleware_stack req res = elim (next (suc (length stack)) 0 req res) [
    | none ↦ none
    | some (res', _) ↦ some res'
  ]

-- The response that a stack starts with, as far as the default middleware sees it: its headers.
abbrev pub Headers : Type 0
Headers = List (String × String)

abbrev pub initial_headers : Headers
initial_headers = ("Content-Type", "application/json") ∷ []

unfoldable pub cors : Headers → Headers
unfolding insert
cors h = insert "Access-Control-Allow-Headers" "Content-Type, Authorization" (
    insert "Access-Control-Allow-Methods" "GET, POST, PUT, DELETE, OPTIONS"
      (insert "Access-Control-Allow-Origin" "*" h))

unfoldable pub security : Headers → Headers
unfolding insert
security h =
    insert "X-XSS-Protection" "1; mode=block"
      (insert "X-Frame-Options" "DENY" (insert "X-Content-Type-Options" "nosniff" h))

-- `logging`, `cors` and `security`: each calls `next` once and is done.
abbrev pub through : {Req Res : Type 0} → (Res → Res) → Req → Res → Behaviour Req Res
through change req res = calls_next req (change res) finishes

unfoldable pub default_middleware : {Req : Type 0} → List (Req → Headers → Behaviour Req Headers)
unfolding cors security
default_middleware = through (λ h. h) ∷ through cors ∷ through security ∷ []
