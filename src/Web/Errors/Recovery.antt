-- ===== src/Web/Errors/Recovery.antt =====
-- What `recover_from_error` achieves (src/web/web_server.cpp).
use distributed_data_science.Prelude.{
  ◌-◌, ◌*◌, ◌<◌, ◌≤◌, ◌≡◌, false, not, ◌||◌, arith, ltb, if◌then◌else◌, length, length-keep-le,
}
use distributed_data_science.Prelude.Mutex.{deadlock, returns}
use distributed_data_science.Web.Errors.{
  Errors, Moment, recover_from_error, cleanup_resources, clear_log, clear_cache,
  restart_failed_components, restart, is_status, perform_health_check, settle, is_server_healthy,
}

abbrev pub recovered : Moment → Errors → Errors
recovered m e = settle (perform_health_check m (restart (clear_log e)))

outcome :
    (m : Moment) (e : Errors)
    → recover_from_error m false e ≡ (
        if ltb (e.max_cache_size * 3) (length e.cached * 2)
        then deadlock
        else returns (tt, recovered m e))
unfolding recover_from_error cleanup_resources clear_log clear_cache restart_failed_components
outcome m e = ground arith

restarted :
    (m : Moment) (e : Errors)
    → length e.cached * 2 ≤ e.max_cache_size * 3
    → ((recovered m e).consecutive_errors ≡ 0)
      × (is_server_healthy (recovered m e)
          ≡ (e.server_healthy || not (ltb (m.now - e.last_health_check) e.health_check_interval)))
unfolding clear_log restart perform_health_check settle is_server_healthy
restarted m e h = ground (arith, length-keep-le is_status e.cached)

-- With the mutexes free, a recovery never returns if the cache holds more than one and a half times
-- its size: it clears the cache while it holds the cache's mutex.
recover_from_error-stuck :
    (m : Moment) (e : Errors)
    → e.max_cache_size * 3 < length e.cached * 2
    → recover_from_error m false e ≡ deadlock
recover_from_error-stuck m e h = ground (arith, outcome m e)

-- Else it returns with no consecutive errors, and the server counts as healthy if it did before, or
-- if the last health check is at least an interval ago: within the interval of a check an unhealthy server stays
-- unhealthy.
recover_from_error-outcome :
    (m : Moment) (e : Errors)
    → length e.cached * 2 ≤ e.max_cache_size * 3
    → (recover_from_error m false e ≡ returns (tt, recovered m e))
      × ((recovered m e).consecutive_errors ≡ 0)
      × (is_server_healthy (recovered m e)
          ≡ (e.server_healthy || not (ltb (m.now - e.last_health_check) e.health_check_interval)))
recover_from_error-outcome m e h =
    let (calm, healthy) = restarted m e h in (ground (arith, outcome m e), calm, healthy)
