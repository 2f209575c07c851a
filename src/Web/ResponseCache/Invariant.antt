-- ===== src/Web/ResponseCache/Invariant.antt =====
-- What holds of the cache after any calls: its tables agree and its size is bounded.
use distributed_data_science.Prelude.{
  ℕ, suc, ◌-◌, ◌≤◌, max, ◌≡◌, refl, ◌∙◌, sym, ap, subst, true, not, All, ◌||◌, String, List, [],
  ◌∷◌, ◌++◌, arith, inl, inr, =?_iff, =?_refl, string_key, length, length-append, leb, ltb,
  Bool-cases, Option-cases,
}
use distributed_data_science.Prelude.Maps.{
  lookup, insert, erase, has, lookup_or, Distinct, has-lookup, has-insert, has-erase,
  insert-Distinct, erase-Distinct, length-insert, length-erase,
}
use distributed_data_science.Web.ResponseCache.{
  HttpResponse, Ratio, ResponseCache, remove_first, contains, move_to_back, should_cache_response,
  drop_entry, evict_lru_cache_entry, invalidate_cache, store, cache_response, clear_cache, miss,
  get_cached_response, reset_cache_stats, Call, gets, caches, invalidates, clears, restarts, resets,
  restart_cache, step, run,
}
use distributed_data_science.Web.ResponseCache.Status.{
  HaveStatus, HasStatus, keep-HaveStatus, step-HaveStatus,
}
use distributed_data_science.Web.ResponseCache.Order.{
  AllOnce, contains-append, contains-remove_first, length-remove_first, remove_first-AllOnce,
  append-AllOnce, contains-move_to_back, length-move_to_back, move_to_back-AllOnce,
}

-- The responses, the times of their last use and the order of use have the same keys, each once.
abbrev pub IsAligned : List (String × HttpResponse) → List (String × ℕ) → List String → Type 0
IsAligned entries times lru =
    Distinct entries
    × AllOnce lru
    × ((k : String) → contains k lru ≡ has k entries)
    × ((k : String) → has k times ≡ has k entries)
    × (length lru ≡ length entries)

drop-IsAligned :
    (k : String) (entries : List (String × HttpResponse)) (times : List (String × ℕ))
    (lru : List String)
    → IsAligned entries times lru
    → IsAligned (erase k entries) (erase k times) (remove_first k lru)
drop-IsAligned k entries times lru (d, o, c, t, n) = (
  erase-Distinct k entries d,
  remove_first-AllOnce k lru o,
  (λ j. ground (arith, contains-remove_first k j lru o, has-erase k j entries, c j)),
  (λ j. ground (arith, has-erase k j times, has-erase k j entries, t j)),
  ground (arith, length-remove_first k lru, length-erase k entries d, c k),
)

store-IsAligned :
    (k : String) (response : HttpResponse) (now : ℕ)
    → (entries : List (String × HttpResponse)) (times : List (String × ℕ)) (lru : List String)
    → IsAligned entries times lru
    → IsAligned (insert k response entries) (insert k now times) (remove_first k lru ++ k ∷ [])
unfolding contains
store-IsAligned k response now entries times lru (d, o, c, t, n) = (
  insert-Distinct k response entries d,
  append-AllOnce k (remove_first k lru) (ground (arith, contains-remove_first k k lru o, =?_refl k))
      (remove_first-AllOnce k lru o),
  (λ j. ground (
    arith,
    contains-append j (remove_first k lru) (k ∷ []),
    contains-remove_first k j lru o,
    has-insert k j response entries,
    c j,
  )),
  (λ j. ground (arith, has-insert k j now times, has-insert k j response entries, t j)),
  ground (
    arith,
    length-append (remove_first k lru) (k ∷ []),
    length-remove_first k lru,
    length-insert k response entries,
    c k,
  ),
)

touch-IsAligned :
    (k : String) (now : ℕ)
    → (entries : List (String × HttpResponse)) (times : List (String × ℕ)) (lru : List String)
    → has k entries ≡ true
    → IsAligned entries times lru
    → IsAligned entries (insert k now times) (move_to_back k lru)
touch-IsAligned k now entries times lru there (d, o, c, t, n) = (
  d,
  move_to_back-AllOnce k lru o,
  (λ j. contains-move_to_back k j lru o ∙ c j),
  (λ j. ground (arith, has-insert k j now times, t j, =?_iff k j)),
  length-move_to_back k lru ∙ n,
)

remove_front : (k : String) (lru : List String) → remove_first k (k ∷ lru) ≡ lru
unfolding remove_first
remove_front k lru = ground (arith, =?_refl k)

-- The tables agree, and there are at most `max_cache_size_` responses, or one where that is 0.
abbrev pub IsSound : {R : Type 0} → ResponseCache R → Type 0
IsSound c =
    IsAligned c.response_cache c.cache_access_times c.cache_lru_order
    × (length c.response_cache ≤ max 1 c.max_cache_size)

front-IsAligned :
    (k : String) (entries : List (String × HttpResponse)) (times : List (String × ℕ))
    (lru : List String)
    → IsAligned entries times (k ∷ lru)
    → IsAligned (erase k entries) (erase k times) lru
      × (suc (length (erase k entries)) ≡ length entries)
front-IsAligned k entries times lru a =
    let b : IsAligned (erase k entries) (erase k times) lru =
      subst (λ l. IsAligned (erase k entries) (erase k times) l) (remove_front k lru)
        (drop-IsAligned k entries times (k ∷ lru) a) in
    (b, ap suc (sym b.4) ∙ a.4)

module _ {R : Type 0} where
  evict-IsAligned :
      (c : ResponseCache R)
      → IsAligned c.response_cache c.cache_access_times c.cache_lru_order
      → let c' = evict_lru_cache_entry c in
        IsAligned c'.response_cache c'.cache_access_times c'.cache_lru_order
        × (length c'.response_cache ≡ length c.response_cache - 1)
        × (c'.max_cache_size ≡ c.max_cache_size)
  unfolding evict_lru_cache_entry
  evict-IsAligned c a = go c.cache_lru_order refl a
    where
      go :
          (lru : List String)
          → c.cache_lru_order ≡ lru
          → IsAligned c.response_cache c.cache_access_times lru
          → let c' = evict_lru_cache_entry c in
            IsAligned c'.response_cache c'.cache_access_times c'.cache_lru_order
            × (length c'.response_cache ≡ length c.response_cache - 1)
            × (c'.max_cache_size ≡ c.max_cache_size)
      go [] e b = rw (e, evict_lru_cache_entry) (rw e b, omega (arith, b.4), refl)
      go (k ∷ lru) e b =
          let (f, n) = front-IsAligned k c.response_cache c.cache_access_times lru b in
          rw (e, evict_lru_cache_entry) (f, omega (arith, n), refl)

  cache_response-IsSound :
      (k : String) (response : HttpResponse) (now : ℕ) (c : ResponseCache R)
      → IsSound c
      → IsSound (cache_response k response now c)
  unfolding cache_response store
  cache_response-IsSound k response now c (a, b) =
      elim (Bool-cases
        (not c.intelligent_caching_enabled || not (should_cache_response response))) [
          | inl e ↦ rw (e, cache_response) (a, b)
          | inr e ↦ elim (Bool-cases (leb c.max_cache_size (length c.response_cache))) [
            | inl full ↦
                let (a', n, m) = evict-IsAligned c a in
                rw (e, full, cache_response)
                  (
                    store-IsAligned k response now _ _ _ a',
                    ground (
                      arith,
                      length-insert k response (evict_lru_cache_entry c).response_cache,
                      n,
                      m,
                    ),
                  )
            | inr room ↦
                rw (e, room, cache_response)
                  (
                    store-IsAligned k response now c.response_cache c.cache_access_times
                        c.cache_lru_order a,
                    ground (arith, length-insert k response c.response_cache),
                  )
          ]
        ]

module _ {R : Type 0} (ratio : Ratio R) where
  get-IsSound :
      (k : String) (now : ℕ) (c : ResponseCache R)
      → IsSound c
      → IsSound (get_cached_response ratio k now c).1
  unfolding get_cached_response miss drop_entry
  get-IsSound k now c (a, b) = elim (Option-cases (lookup k c.response_cache)) [
    | inl e ↦ rw (e, get_cached_response) (a, b)
    | inr (r, e) ↦ elim (Bool-cases (ltb (now - lookup_or 0 k c.cache_access_times) c.cache_ttl)) [
      | inl fresh ↦
          rw (e, fresh, get_cached_response)
            (touch-IsAligned k now _ _ _ (ground (arith, has-lookup k c.response_cache)) a, b)
      | inr stale ↦
          rw (e, stale, get_cached_response)
            (drop-IsAligned k _ _ _ a, ground (arith, length-erase k c.response_cache a.0))
    ]
  ]

  step-IsSound :
      (call : Call) (c : ResponseCache R)
      → HaveStatus c.response_cache
      → IsSound c
      → IsSound (step ratio call c)
  unfolding step invalidate_cache drop_entry clear_cache reset_cache_stats has contains
  step-IsSound (gets k now) c s h = get-IsSound k now c h
  step-IsSound (caches k response now) c s h = cache_response-IsSound k response now c h
  step-IsSound (invalidates k) c s (a, b) =
      (drop-IsAligned k _ _ _ a, ground (arith, length-erase k c.response_cache a.0))
  step-IsSound clears c s h = ((tt, tt, (λ k. refl), (λ k. refl), refl), omega arith)
  step-IsSound (resets now) c s h = h
  step-IsSound restarts c s h = rw (restart_cache, keep-HaveStatus c.response_cache s) h

  -- Whatever the calls, `restart_failed_components` included, the responses, their times and the order of
  -- use keep the same keys, each once, and the cache never has more than `max_cache_size_` responses
  -- (one, where that is 0), if no response with a code below 200 is in the cache or given to it.
  -- `restart_failed_components` erases such a response and leaves its time and its place in the order.
  pub run-IsSound :
      (calls : List Call) (c : ResponseCache R)
      → All HasStatus calls
      → HaveStatus c.response_cache
      → IsSound c
      → IsSound (run ratio calls c)
  unfolding run
  run-IsSound [] c given s h = h
  run-IsSound (call ∷ calls) c given s h =
      run-IsSound calls (step ratio call c) given.1 (step-HaveStatus ratio call c given.0 s)
        (step-IsSound call c s h)
