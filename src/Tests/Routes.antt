-- ===== src/Tests/Routes.antt =====
-- Runs of the theorems on routes, middleware and what a request is checked against.
use distributed_data_science.Prelude.{
  ℕ, ◌+◌, ◌≡◌, refl, true, some, String, List, [], ◌∷◌, ltb, arith, string_key, nat_key, codes, inl,
  inr, Bool-cases,
}
use distributed_data_science.Prelude.Maps.{lookup, has}
use distributed_data_science.Web.Accounts.{contains}
use distributed_data_science.Web.Texts.{split_string}
use distributed_data_science.Web.Routing.{
  Router, add_route, find_route, first_match, match_route_pattern, Behaviour, finishes, calls_next,
  execute_middleware_stack, through, ends_with_star,
}
use distributed_data_science.Web.Routing.Cache.{find_route-stale}
use distributed_data_science.Web.Routing.Middleware.{execute_middleware_stack-finishes}
use distributed_data_science.Web.Routing.Patterns.{match_route_pattern-plain}
use distributed_data_science.Web.Sanitizing.{sanitize_input}
use distributed_data_science.Web.Sanitizing.Entities.{sanitize_each, sanitize_input-sanitize_each}
use distributed_data_science.Web.Protection.{Protection}
use distributed_data_science.Web.Protection.Spacing.{IsSpaced, admitted, admitted-IsSpaced}
use distributed_data_science.Web.Negotiation.{Numbers, select_best_match}
use distributed_data_science.Web.Negotiation.Choice.{IsOrder, select_best_match-best}

abbrev router : Router ℕ
router = record {
  routes = ("GET:/api/*", 1) ∷ ("GET:/api/jobs", 2) ∷ ("GET:/users/:id", 3) ∷ [];
  route_cache = [];
  route_cache_enabled = true;
}

find_route-stale_example :
    (find_route "GET" "/users/7"
      (add_route "GET" "/users/7" 9 (find_route "GET" "/users/7" router).1)).0
    ≡ some 3
unfolding find_route first_match match_route_pattern
find_route-stale_example = find_route-stale "GET" "/users/7" "GET" "/users/7" 3 9 router refl refl

-- A middleware that calls `next` twice.
abbrev twice : ℕ → ℕ → Behaviour ℕ ℕ
twice req res = calls_next req res (λ r. calls_next req r finishes)

abbrev handler : ℕ → ℕ → ℕ
handler req res = req + res

execute_middleware_stack-finishes_example :
    (res : ℕ) × (execute_middleware_stack (twice ∷ through (λ n. n + 1) ∷ []) handler 5 7
      ≡ some res)
execute_middleware_stack-finishes_example =
    execute_middleware_stack-finishes (twice ∷ through (λ n. n + 1) ∷ []) handler 5 7

match_route_pattern-plain_example :
    split_string "GET:/model/{id}" b'/' ≡ split_string "GET:/model/{id}" b'/'
unfolding ends_with_star split_string match_route_pattern
match_route_pattern-plain_example =
    match_route_pattern-plain "GET:/model/{id}" "GET:/model/{id}" refl refl refl

sanitize_input-sanitize_each_example :
    sanitize_input true (codes "<b>\"x\"") ≡ sanitize_each (codes "<b>\"x\"")
sanitize_input-sanitize_each_example = sanitize_input-sanitize_each true (codes "<b>\"x\"")

abbrev protection : Protection
protection = record {
  security_enabled = true;
  csrf_tokens = ("s1", "t1") ∷ [];
  security_event_counts = [];
  ip_rate_limits = [];
}

abbrev visits : List (String × ℕ)
visits = ("a", 10) ∷ ("b", 20) ∷ ("a", 30) ∷ ("a", 70) ∷ []

admitted-IsSpaced_example :
    IsSpaced (lookup "a" protection.ip_rate_limits) (admitted "a" visits protection)
admitted-IsSpaced_example = admitted-IsSpaced "a" visits protection

-- Qualities in tenths.
abbrev tenths : Numbers ℕ
tenths = record { zero = 0; one = 10; above = λ a b. ltb b a; stod = λ s. some 5 }

tenths-IsOrder : IsOrder tenths
tenths-IsOrder = record {
  irreflexive = λ a. ground arith;
  transitive = λ a b c h k. ground arith;
  between = λ a b c h. elim (Bool-cases (ltb b a)) [ inl x ↦ inl x | inr x ↦ inr (ground arith) ];
}

abbrev qualities : List (String × ℕ)
qualities = ("text/html", 8) ∷ ("text/plain", 9) ∷ []

select_best_match-best_example :
    contains
      (select_best_match tenths qualities "text/html" ("text/plain" ∷ []))
      ("text/html" ∷ "text/plain" ∷ [])
    ≡ true
unfolding has lookup
select_best_match-best_example =
    (select_best_match-best tenths qualities tenths-IsOrder "text/html" ("text/plain" ∷ []) refl
      refl refl).0
