-- ===== src/Web/ResponseCache.antt =====
-- The response cache of `WebServer` with its order of use (src/web/web_server.cpp, the second
-- definition of `get_cached_response` to `update_cache_hit_ratio`, which is the one that the fields of
-- include/web/web_server.h fit). The clock's reading is an argument; the `double` of the hit ratio is
-- of any type `R`, with the division as a parameter.
use distributed_data_science.Prelude.{
  ℕ, zero, ◌+◌, ◌-◌, ◌*◌, Bool, true, false, not, ◌&&◌, ◌||◌, Option, none, some, String, List, [],
  ◌∷◌, ◌++◌, ltb, leb, if◌then◌else◌, ◌=?◌, string_key, length, keep,
}
use distributed_data_science.Prelude.Words.{increment}
use distributed_data_science.Prelude.Maps.{lookup, insert, erase, lookup_or}
use text.Mathlib.Text.{starts_with}
use Prim.Native.String.{len}
pub mod Order
pub mod Status
pub mod Invariant
pub mod Hits
pub mod Queries

pub record HttpResponse : Type 0 where
  pub status_code : ℕ
  pub body : String
  pub headers : List (String × String)

-- `static_cast<double>(hits) / total * 100.0`, and the zero it starts from.
pub record Ratio (R : Type 0) : Type 0 where
  pub zero_ratio : R
  pub percent : ℕ → ℕ → R

pub record CacheStats (R : Type 0) : Type 0 where
  pub cache_hit_counts : List (String × ℕ)
  pub cache_miss_counts : List (String × ℕ)
  pub cache_hits : ℕ
  pub cache_misses : ℕ
  pub total_cache_requests : ℕ
  pub cache_hit_ratio : R
  pub cache_stats_start_time : ℕ

pub record ResponseCache (R : Type 0) : Type 0 where
  pub response_cache : List (String × HttpResponse)
  pub cache_access_times : List (String × ℕ)
  pub cache_lru_order : List String
  pub stats : CacheStats R
  pub max_cache_size : ℕ
  pub cache_ttl : ℕ
  pub intelligent_caching_enabled : Bool

-- `std::find`, and `erase` of what it found.
unfoldable pub remove_first : String → List String → List String
remove_first k [] = []
remove_first k (j ∷ l) = let rest = remove_first k l in if j =? k then l else j ∷ rest

unfoldable pub contains : String → List String → Bool
contains k [] = false
contains k (j ∷ l) = (j =? k) || contains k l

-- `update_cache_access_time`.
unfoldable pub move_to_back : String → List String → List String
unfolding contains remove_first
move_to_back k lru = if contains k lru then remove_first k lru ++ k ∷ [] else lru

unfoldable pub should_cache_response : HttpResponse → Bool
unfolding lookup
should_cache_response response =
    if leb 400 response.status_code
    then false
    else if ltb (1024 * 1024) (len response.body)
    then false
    else elim (lookup "Content-Type" response.headers) [
      | none ↦ true
      | some type ↦
          starts_with type "text/"
          || starts_with type "application/json"
          || starts_with type "application/xml"
          || starts_with type "image/"
    ]

module _ {R : Type 0} (ratio : Ratio R) where
  unfoldable pub update_cache_hit_ratio : CacheStats R → CacheStats R
  update_cache_hit_ratio stats =
      if ltb 0 stats.total_cache_requests
      then record stats {
        cache_hit_ratio = ratio.percent stats.cache_hits stats.total_cache_requests;
      }
      else stats

  unfoldable pub count_hit : String → CacheStats R → CacheStats R
  unfolding insert lookup_or increment update_cache_hit_ratio
  count_hit k stats = update_cache_hit_ratio (record stats {
    cache_hit_counts =
        insert k (increment (lookup_or 0 k stats.cache_hit_counts)) stats.cache_hit_counts;
    cache_hits = increment stats.cache_hits;
    total_cache_requests = increment stats.total_cache_requests;
  })

  unfoldable pub count_miss : String → CacheStats R → CacheStats R
  unfolding insert lookup_or increment update_cache_hit_ratio
  count_miss k stats = update_cache_hit_ratio (record stats {
    cache_miss_counts =
        insert k (increment (lookup_or 0 k stats.cache_miss_counts)) stats.cache_miss_counts;
    cache_misses = increment stats.cache_misses;
    total_cache_requests = increment stats.total_cache_requests;
  })

module _ {R : Type 0} where
  unfoldable pub drop_entry : String → ResponseCache R → ResponseCache R
  unfolding erase remove_first
  drop_entry k c = record c {
    response_cache = erase k c.response_cache;
    cache_access_times = erase k c.cache_access_times;
    cache_lru_order = remove_first k c.cache_lru_order;
  }

  unfoldable pub evict_lru_cache_entry : ResponseCache R → ResponseCache R
  unfolding erase
  evict_lru_cache_entry c = elim c.cache_lru_order [
    | [] ↦ c
    | k ∷ lru ↦ record c {
      response_cache = erase k c.response_cache;
      cache_access_times = erase k c.cache_access_times;
      cache_lru_order = lru;
    }
  ]

  unfoldable pub invalidate_cache : String → ResponseCache R → ResponseCache R
  unfolding drop_entry
  invalidate_cache k c = drop_entry k c

  -- The assignments that end `cache_response`.
  unfoldable pub store : String → HttpResponse → ℕ → ResponseCache R → ResponseCache R
  unfolding insert remove_first
  store k response now c = record c {
    response_cache = insert k response c.response_cache;
    cache_access_times = insert k now c.cache_access_times;
    cache_lru_order = remove_first k c.cache_lru_order ++ k ∷ [];
  }

  unfoldable pub cache_response : String → HttpResponse → ℕ → ResponseCache R → ResponseCache R
  unfolding should_cache_response evict_lru_cache_entry store
  cache_response k response now c =
      if not c.intelligent_caching_enabled || not (should_cache_response response)
      then c
      else if leb c.max_cache_size (length c.response_cache)
      then store k response now (evict_lru_cache_entry c)
      else store k response now c

  unfoldable pub clear_cache : ResponseCache R → ResponseCache R
  clear_cache c = record c {
    response_cache = [];
    cache_access_times = [];
    cache_lru_order = [];
    stats = record c.stats { cache_hit_counts = []; cache_miss_counts = [] };
  }

-- `status_code < 200 || status_code >= 600` is false.
unfoldable pub has_status : String × HttpResponse → Bool
has_status (k, response) = leb 200 response.status_code && ltb response.status_code 600

module _ {R : Type 0} where
  -- The loop of `restart_failed_components` over `response_cache_`: the times and the order are left.
  unfoldable pub restart_cache : ResponseCache R → ResponseCache R
  unfolding has_status
  restart_cache c = record c { response_cache = keep has_status c.response_cache }

module _ {R : Type 0} (ratio : Ratio R) where
  unfoldable pub miss : String → ResponseCache R → Option HttpResponse × ResponseCache R
  unfolding count_miss
  miss k c = (none, record c { stats = count_miss ratio k c.stats })

  -- `cache_access_times_[cache_key]` makes an entry where there is none; the next statement writes or
  -- erases it.
  unfoldable pub get_cached_response :
      String → ℕ → ResponseCache R → Option HttpResponse × ResponseCache R
  unfolding lookup lookup_or insert miss drop_entry move_to_back count_hit
  get_cached_response k now c = elim (lookup k c.response_cache) [
    | none ↦ miss k c
    | some response ↦
        if ltb (now - lookup_or 0 k c.cache_access_times) c.cache_ttl
        then (
          some response,
          record c {
            cache_access_times = insert k now c.cache_access_times;
            cache_lru_order = move_to_back k c.cache_lru_order;
            stats = count_hit ratio k c.stats;
          },
        )
        else miss k (drop_entry k c)
  ]

  unfoldable pub reset_cache_stats : ℕ → ResponseCache R → ResponseCache R
  reset_cache_stats now c = record c {
    stats = record {
      cache_hit_counts = [];
      cache_miss_counts = [];
      cache_hits = 0;
      cache_misses = 0;
      total_cache_requests = 0;
      cache_hit_ratio = ratio.zero_ratio;
      cache_stats_start_time = now;
    };
  }

pub data Call : Type 0 where
  gets : String → ℕ → Call
  caches : String → HttpResponse → ℕ → Call
  invalidates : String → Call
  clears : Call
  restarts : Call
  resets : ℕ → Call

module _ {R : Type 0} (ratio : Ratio R) where
  unfoldable pub step : Call → ResponseCache R → ResponseCache R
  unfolding get_cached_response cache_response invalidate_cache clear_cache restart_cache
      reset_cache_stats
  step (gets k now) c = (get_cached_response ratio k now c).1
  step (caches k response now) c = cache_response k response now c
  step (invalidates k) c = invalidate_cache k c
  step clears c = clear_cache c
  step restarts c = restart_cache c
  step (resets now) c = reset_cache_stats ratio now c

  unfoldable pub run : List Call → ResponseCache R → ResponseCache R
  unfolding step
  run [] c = c
  run (call ∷ calls) c = run calls (step call c)
