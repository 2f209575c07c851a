-- ===== src/Web/Routing/Cache.antt =====
-- What the cache of the routes does to `find_route` (src/web/web_server.cpp).
use distributed_data_science.Prelude.{
  ◌≡◌, true, Option, none, some, String, List, [], ◌∷◌, arith, string_key, inl, inr, Option-cases,
  Bool-cases, ◌⊎◌,
}
use distributed_data_science.Prelude.Maps.{lookup, lookup-insert_self}
use distributed_data_science.Web.Routing.{
  Router, route_key, add_route, first_match, cache_route, search_routes, find_route,
}

module _ {H : Type 0} where
  -- The handler of a key with no look into the cache: the route of that very key, else the first one
  -- whose pattern matches it.
  unfoldable pub wanted : List (String × H) → String → Option H
  unfolding lookup first_match
  wanted routes key = elim (lookup key routes) [
    | some handler ↦ some handler
    | none ↦ first_match routes key
  ]

  -- The requests that ask for a route.
  unfoldable pub find_all : List (String × String) → Router H → Router H
  unfolding find_route
  find_all [] r = r
  find_all ((method, path) ∷ requests) r = find_all requests (find_route method path r).1

  -- What the cache has is what would be found.
  abbrev pub IsFresh : Router H → Type 0
  IsFresh r =
      (key : String) (handler : H)
      → lookup key r.route_cache ≡ some handler
      → wanted r.routes key ≡ some handler

  search_routes-wanted :
      (key : String) (r : Router H)
      → search_routes key r
        ≡ elim (wanted r.routes key) [ none ↦ (none, r) | some handler ↦ cache_route key handler r ]
  unfolding search_routes wanted
  search_routes-wanted key r = ground arith

  find_route-cases :
      (method path : String) (r : Router H)
      → ((handler : H) × (lookup (route_key method path) r.route_cache ≡ some handler)
          × (find_route method path r ≡ (some handler, r)))
        ⊎ (find_route method path r ≡ search_routes (route_key method path) r)
  unfolding find_route
  find_route-cases method path r = elim (Bool-cases r.route_cache_enabled) [
    | inl on ↦ elim (Option-cases (lookup (route_key method path) r.route_cache)) [
      | inl e ↦ inr (ground arith)
      | inr (handler, e) ↦ inl (handler, e, ground arith)
    ]
    | inr off ↦ inr (ground arith)
  ]

  abbrev Found : Router H → String → Option H × Router H → Type 0
  Found r key answer =
      (answer.0 ≡ wanted r.routes key) × (answer.1.routes ≡ r.routes) × IsFresh answer.1

  cached_hit :
      (method path : String) (handler : H) (r : Router H)
      → r.route_cache_enabled ≡ true
      → lookup (route_key method path) r.route_cache ≡ some handler
      → (find_route method path r).0 ≡ some handler
  unfolding find_route
  cached_hit method path handler r on e = ground arith

  find_route-kept :
      (method path : String) (r : Router H) (handler : H)
      → r.route_cache_enabled ≡ true
      → (find_route method path r).0 ≡ some handler
      → (lookup (route_key method path) (find_route method path r).1.route_cache ≡ some handler)
        × ((find_route method path r).1.route_cache_enabled ≡ true)
  unfolding cache_route
  find_route-kept method path r handler on found =
      let key = route_key method path in
      ground (
        arith,
        find_route-cases method path r,
        search_routes-wanted key r,
        lookup-insert_self key handler r.route_cache,
      )

  -- But the cache is not cleared when a route is added: with the cache in use, a request that was
  -- answered once is answered by the same handler after any route is added or replaced, its own too.
  pub find_route-stale :
      (method path method' path' : String) (handler handler' : H) (r : Router H)
      → r.route_cache_enabled ≡ true
      → (find_route method path r).0 ≡ some handler
      → (find_route method path (add_route method' path' handler' (find_route method path r).1)).0
        ≡ some handler
  unfolding add_route
  find_route-stale method path method' path' handler handler' r on found =
      let (kept, still) = find_route-kept method path r handler on found in
      cached_hit method path handler (add_route method' path' handler' (find_route method path r).1)
        still kept
