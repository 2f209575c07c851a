-- ===== src/Web/ResponseCache/Status.antt =====
-- The status codes of the responses in the cache (src/web/web_server.cpp).
use distributed_data_science.Prelude.{
  ℕ, ◌-◌, ◌≡◌, refl, true, not, All, keep, ◌=?◌, ◌||◌, String, List, [], ◌∷◌, arith, inl, inr,
  string_key, length, leb, ltb, Bool-cases, Option-cases, List-cases,
}
use distributed_data_science.Prelude.Maps.{lookup, insert, erase, lookup_or}
use distributed_data_science.Web.ResponseCache.{
  HttpResponse, Ratio, ResponseCache, should_cache_response, drop_entry, evict_lru_cache_entry,
  invalidate_cache, store, cache_response, clear_cache, miss, get_cached_response,
  reset_cache_stats, Call, gets, caches, invalidates, clears, restarts, resets, has_status,
  restart_cache, step,
}

-- The responses that `restart_failed_components` leaves.
abbrev pub HaveStatus : List (String × HttpResponse) → Type 0
HaveStatus entries = All (λ e. has_status e ≡ true) entries

-- A response that is given to the cache has a code from 200 on.
abbrev pub HasStatus : Call → Type 0
HasStatus (caches k response now) = leb 200 response.status_code ≡ true
HasStatus _ = Unit

pub keep-HaveStatus :
    (entries : List (String × HttpResponse))
    → HaveStatus entries
    → keep has_status entries ≡ entries
keep-HaveStatus [] s = refl
keep-HaveStatus (e ∷ entries) s = ground (arith, keep-HaveStatus entries s.1, s.0)

erase-HaveStatus :
    (k : String) (entries : List (String × HttpResponse))
    → HaveStatus entries
    → HaveStatus (erase k entries)
unfolding erase
erase-HaveStatus k [] s = tt
erase-HaveStatus k ((j, r) ∷ entries) s = elim (Bool-cases (j =? k)) [
  | inl same ↦ rw (same, erase) (erase-HaveStatus k entries s.1)
  | inr other ↦ rw (other, erase) (s.0, erase-HaveStatus k entries s.1)
]

insert-HaveStatus :
    (k : String) (response : HttpResponse) (entries : List (String × HttpResponse))
    → has_status (k, response) ≡ true
    → HaveStatus entries
    → HaveStatus (insert k response entries)
unfolding insert
insert-HaveStatus k response [] new s = (new, tt)
insert-HaveStatus k response ((j, r) ∷ entries) new s = elim (Bool-cases (j =? k)) [
  | inl same ↦ rw (same, insert) (new, s.1)
  | inr other ↦ rw (other, insert) (s.0, insert-HaveStatus k response entries new s.1)
]

cacheable-has_status :
    (k : String) (response : HttpResponse)
    → leb 200 response.status_code ≡ true
    → should_cache_response response ≡ true
    → has_status (k, response) ≡ true
unfolding should_cache_response has_status
cacheable-has_status k response low cached = elim (Bool-cases (leb 400 response.status_code)) [
  | inl failed ↦ absurd (ground arith)
  | inr fine ↦ ground arith
]

module _ {R : Type 0} where
  evict-HaveStatus :
      (c : ResponseCache R)
      → HaveStatus c.response_cache
      → HaveStatus (evict_lru_cache_entry c).response_cache
  unfolding evict_lru_cache_entry
  evict-HaveStatus c s = elim (List-cases c.cache_lru_order) [
    | inl empty ↦ rw (empty, evict_lru_cache_entry) s
    | inr (k, lru, e) ↦ rw (e, evict_lru_cache_entry) (erase-HaveStatus k c.response_cache s)
  ]

  cache_response-HaveStatus :
      (k : String) (response : HttpResponse) (now : ℕ) (c : ResponseCache R)
      → leb 200 response.status_code ≡ true
      → HaveStatus c.response_cache
      → HaveStatus (cache_response k response now c).response_cache
  unfolding cache_response store
  cache_response-HaveStatus k response now c low s =
      elim (Bool-cases
        (not c.intelligent_caching_enabled || not (should_cache_response response))) [
          | inl e ↦ rw (e, cache_response) s
          | inr e ↦
              let fits = cacheable-has_status k response low (ground arith) in
              elim (Bool-cases (leb c.max_cache_size (length c.response_cache))) [
                | inl full ↦
                    rw (e, full, cache_response)
                      (insert-HaveStatus k response (evict_lru_cache_entry c).response_cache fits
                        (evict-HaveStatus c s))
                | inr room ↦
                    rw (e, room, cache_response)
                      (insert-HaveStatus k response c.response_cache fits s)
              ]
        ]

module _ {R : Type 0} (ratio : Ratio R) where
  get-HaveStatus :
      (k : String) (now : ℕ) (c : ResponseCache R)
      → HaveStatus c.response_cache
      → HaveStatus (get_cached_response ratio k now c).1.response_cache
  unfolding get_cached_response miss drop_entry
  get-HaveStatus k now c s = elim (Option-cases (lookup k c.response_cache)) [
    | inl e ↦ rw (e, get_cached_response) s
    | inr (r, e) ↦ elim (Bool-cases (ltb (now - lookup_or 0 k c.cache_access_times) c.cache_ttl)) [
      | inl fresh ↦ rw (e, fresh, get_cached_response) s
      | inr stale ↦ rw (e, stale, get_cached_response) (erase-HaveStatus k c.response_cache s)
    ]
  ]

  pub step-HaveStatus :
      (call : Call) (c : ResponseCache R)
      → HasStatus call
      → HaveStatus c.response_cache
      → HaveStatus (step ratio call c).response_cache
  unfolding step invalidate_cache drop_entry clear_cache reset_cache_stats restart_cache
  step-HaveStatus (gets k now) c given s = get-HaveStatus k now c s
  step-HaveStatus (caches k response now) c given s =
      cache_response-HaveStatus k response now c given s
  step-HaveStatus (invalidates k) c given s = erase-HaveStatus k c.response_cache s
  step-HaveStatus clears c given s = tt
  step-HaveStatus (resets now) c given s = s
  step-HaveStatus restarts c given s = rw (keep-HaveStatus c.response_cache s) s
