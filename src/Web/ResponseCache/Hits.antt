-- ===== src/Web/ResponseCache/Hits.antt =====
-- What a lookup in the cache answers, and which response the next eviction takes.
use distributed_data_science.Prelude.{
  ℕ, ◌+◌, ◌-◌, ◌≤◌, ◌<◌, ◌≡◌, refl, ◌⊎◌, true, none, some, String, List, [], ◌∷◌, arith, inl, inr,
  if◌then◌else◌, =?_refl, string_key, length, leb, ltb, Bool-cases,
}
use distributed_data_science.Prelude.Maps.{lookup, lookup_or, lookup-insert_self, lookup_or-insert}
use distributed_data_science.Web.ResponseCache.{
  HttpResponse, Ratio, ResponseCache, should_cache_response, evict_lru_cache_entry, store,
  cache_response, miss, get_cached_response,
}

module _ {R : Type 0} where
  cached_store :
      (k : String) (response : HttpResponse) (now : ℕ) (c : ResponseCache R)
      → c.intelligent_caching_enabled ≡ true
      → should_cache_response response ≡ true
      → cache_response k response now c ≡ (
          if leb c.max_cache_size (length c.response_cache)
          then store k response now (evict_lru_cache_entry c)
          else store k response now c)
  unfolding cache_response
  cached_store k response now c on ok = rw (on, ok, cache_response) refl

  evict_ttl : (c : ResponseCache R) → (evict_lru_cache_entry c).cache_ttl ≡ c.cache_ttl
  unfolding evict_lru_cache_entry
  evict_ttl c = elim (list_cases c.cache_lru_order) [
    | inl e ↦ rw (e, evict_lru_cache_entry) refl
    | inr (k, (l, e)) ↦ rw (e, evict_lru_cache_entry) refl
  ]
    where
      list_cases : (l : List String) → (l ≡ []) ⊎ ((k : String) × ((r : List String) × (l ≡ k ∷ r)))
      list_cases [] = inl refl
      list_cases (k ∷ r) = inr (k, (r, refl))

  cache_response_entry :
      (k : String) (response : HttpResponse) (now : ℕ) (c : ResponseCache R)
      → c.intelligent_caching_enabled ≡ true
      → should_cache_response response ≡ true
      → let c' = cache_response k response now c in
        (lookup k c'.response_cache ≡ some response)
        × (lookup_or 0 k c'.cache_access_times ≡ now)
        × (c'.cache_ttl ≡ c.cache_ttl)
  unfolding store
  cache_response_entry k response now c on ok =
      elim (Bool-cases (leb c.max_cache_size (length c.response_cache))) [
        | inl e ↦
            rw (cached_store k response now c on ok, e)
              (
                lookup-insert_self k response _,
                ground (
                  arith,
                  lookup_or-insert 0 k k now (evict_lru_cache_entry c).cache_access_times,
                  =?_refl k,
                ),
                evict_ttl c,
              )
        | inr e ↦
            rw (cached_store k response now c on ok, e)
              (
                lookup-insert_self k response _,
                ground (arith, lookup_or-insert 0 k k now c.cache_access_times, =?_refl k),
                refl,
              )
      ]

module _ {R : Type 0} (ratio : Ratio R) where
  get_found :
      (k : String) (now : ℕ) (c : ResponseCache R) (response : HttpResponse)
      → lookup k c.response_cache ≡ some response
      → (get_cached_response ratio k now c).0 ≡ (
          if ltb (now - lookup_or 0 k c.cache_access_times) c.cache_ttl
          then some response
          else none)
  unfolding get_cached_response miss
  get_found k now c response e =
      elim (Bool-cases (ltb (now - lookup_or 0 k c.cache_access_times) c.cache_ttl)) [
        | inl fresh ↦ rw (e, fresh, get_cached_response) refl
        | inr stale ↦ rw (e, stale, get_cached_response) refl
      ]

  -- With caching on, a response that may be cached is what a lookup of its key finds while its time to
  -- live lasts, also when the cache was full; from then on the lookup finds nothing.
  cache_response-get_cached_response :
      (k : String) (response : HttpResponse) (now later : ℕ) (c : ResponseCache R)
      → c.intelligent_caching_enabled ≡ true
      → should_cache_response response ≡ true
      → let found = (get_cached_response ratio k later (cache_response k response now c)).0 in
        (later < now + c.cache_ttl → now ≤ later → found ≡ some response)
        × (now + c.cache_ttl ≤ later → found ≡ none)
  cache_response-get_cached_response k response now later c on ok =
      let c' = cache_response k response now c in
      let (e, t, l) = cache_response_entry k response now c on ok in
      let f = get_found k later c' response e in (ground (arith, f, t, l), ground (arith, f, t, l))
