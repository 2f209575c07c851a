-- ===== src/Web/Admission.antt =====
-- What `WebServer` lets in (src/web/web_server.cpp): `check_rate_limit`, `acquire_connection`,
-- `release_connection`, `should_throttle_bandwidth` and `update_bandwidth_usage`. The clock's reading is
-- an argument.
-- include/web/web_server.h does not declare the fields that these methods use; the counters are taken
-- to be `size_t`.
use distributed_data_science.Prelude.{
  ℕ, zero, suc, ◌+◌, ◌-◌, ◌*◌, ◌%◌, ◌^◌, Bool, true, false, not, Option, none, some, String, List,
  [], ◌∷◌, ◌++◌, ltb, leb, if◌then◌else◌, string_key, length, keep,
}
use distributed_data_science.Prelude.Words.{increment, decrement}
use distributed_data_science.Prelude.Maps.{lookup, insert, lookup_or}
pub mod Window
pub mod Race
pub mod Refinement

pub record RateLimiter : Type 0 where
  pub rate_limit_requests : List (String × List ℕ)
  pub rate_limit_window : ℕ
  pub max_requests_per_minute : ℕ

-- The requests of a client that are still in the window.
unfoldable pub in_window : ℕ → ℕ → List ℕ → List ℕ
in_window now window requests = keep (λ t. not (ltb t (now - window))) requests

unfoldable pub check_rate_limit : String → ℕ → RateLimiter → Bool × RateLimiter
unfolding lookup_or insert in_window
check_rate_limit client now r =
    let requests = in_window now r.rate_limit_window (lookup_or [] client r.rate_limit_requests) in
    if leb r.max_requests_per_minute (length requests)
    then (false, record r { rate_limit_requests = insert client requests r.rate_limit_requests })
    else (
      true,
      record r { rate_limit_requests = insert client (requests ++ now ∷ []) r.rate_limit_requests },
    )

-- One atomic access to `active_connections_`: the two of `acquire_connection` and the two of
-- `release_connection`. A thread is between calls, or past the load of one.
pub data Thread : Type 0 where
  idle admitted leaving : Thread

pub record Connections : Type 0 where
  pub active_connections : ℕ
  pub max_connections : ℕ

-- `if (active_connections_.load() >= max_connections_) return false;`
unfoldable pub load_for_acquire : Connections → Thread
load_for_acquire c = if leb c.max_connections c.active_connections then idle else admitted

-- `if (active_connections_.load() > 0)`
unfoldable pub load_for_release : Connections → Thread
load_for_release c = if ltb 0 c.active_connections then leaving else idle

unfoldable pub finish : Thread → Connections → Connections
unfolding increment decrement
finish idle c = c
finish admitted c = record c { active_connections = increment c.active_connections }
finish leaving c = record c { active_connections = decrement c.active_connections }

-- The two methods, run without interruption.
unfoldable pub acquire_connection : Connections → Bool × Connections
unfolding load_for_acquire finish
acquire_connection c = elim (load_for_acquire c) [
  | idle ↦ (false, c)
  | admitted ↦ (true, finish admitted c)
  | leaving ↦ (true, finish leaving c)
]

unfoldable pub release_connection : Connections → Connections
unfolding load_for_release finish
release_connection c = finish (load_for_release c) c

pub record Bandwidth : Type 0 where
  pub bandwidth_usage : List (String × (ℕ × ℕ))
  pub bandwidth_throttling_enabled : Bool
  pub max_bandwidth_per_client : ℕ
  pub total_bytes_sent : ℕ

unfoldable pub recent_usage : ℕ → List (String × (ℕ × ℕ)) → List (String × (ℕ × ℕ))
recent_usage now usage = keep (λ entry. not (ltb 60 (now - entry.1.1))) usage

-- The sum is one of `size_t`.
unfoldable pub should_throttle_bandwidth : String → ℕ → ℕ → Bandwidth → Bool × Bandwidth
unfolding lookup recent_usage
should_throttle_bandwidth client size now b =
    if not b.bandwidth_throttling_enabled
    then (false, b)
    else (let usage = recent_usage now b.bandwidth_usage in
        elim (lookup client usage) [
          | none ↦ (false, record b { bandwidth_usage = usage })
          | some (used, _) ↦ (
            ltb b.max_bandwidth_per_client ((used + size) % 2 ^ 64),
            record b { bandwidth_usage = usage },
          )
        ])

unfoldable pub update_bandwidth_usage : String → ℕ → ℕ → Bandwidth → Bandwidth
unfolding lookup_or insert
update_bandwidth_usage client bytes now b =
    if not b.bandwidth_throttling_enabled then b else record b {
      bandwidth_usage =
          insert client ((((lookup_or (0, 0) client b.bandwidth_usage).0 + bytes) % 2 ^ 64), now)
            b.bandwidth_usage;
      total_bytes_sent = (b.total_bytes_sent + bytes) % 2 ^ 64;
    }
