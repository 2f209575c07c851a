-- ===== src/Tests/Audits.antt =====
-- The response cache and the security auditor.
use distributed_data_science.Prelude.{ℕ, ◌≡◌, refl, true, false, [], ◌∷◌, arith, ◌=?◌, string_key}
use distributed_data_science.Prelude.Maps.{has}
use distributed_data_science.Prelude.Mutex.{deadlock}
use distributed_data_science.Web.ResponseCache.{
  HttpResponse, Ratio, ResponseCache, contains, gets, caches, restarts, run,
}
use distributed_data_science.Web.ResponseCache.Invariant.{IsSound, run-IsSound}
use distributed_data_science.Security.{
  SecurityEvent, SecurityAuditor, Platform, suspicious_activity, medium, log_event,
}
use distributed_data_science.Security.Deadlock.{has_pattern, reports_injection, log_event_outcome}

abbrev ratio : Ratio ℕ
ratio = record { zero_ratio = 0; percent = λ h n. h }

abbrev cache : ResponseCache ℕ
cache = record {
  response_cache = [];
  cache_access_times = [];
  cache_lru_order = [];
  stats = record {
    cache_hit_counts = [];
    cache_miss_counts = [];
    cache_hits = 0;
    cache_misses = 0;
    total_cache_requests = 0;
    cache_hit_ratio = 0;
    cache_stats_start_time = 0;
  };
  max_cache_size = 1;
  cache_ttl = 300;
  intelligent_caching_enabled = true;
}

abbrev page : HttpResponse
page = record { status_code = 200; body = "{}"; headers = [] }

run-IsSound_example :
    IsSound (run ratio (caches "a" page 1 ∷ caches "b" page 2 ∷ restarts ∷ gets "a" 3 ∷ []) cache)
unfolding has contains
run-IsSound_example =
    run-IsSound ratio (caches "a" page 1 ∷ caches "b" page 2 ∷ restarts ∷ gets "a" 3 ∷ []) cache
      (refl, (refl, (tt, (tt, tt)))) tt ((tt, tt, (λ k. refl), (λ k. refl), refl), omega arith)

-- The patterns find one text.
abbrev platform : Platform
platform = record { regex_search = λ pattern text. text =? "SELECT 1"; to_string = λ n. "n" }

abbrev auditor : SecurityAuditor
auditor = record {
  audit_log = [];
  threats = [];
  failed_login_attempts = [];
  enabled = true;
  max_log_size = 10000;
  brute_force_threshold = 5;
}

abbrev attack : SecurityEvent
attack = record {
  event_type = suspicious_activity;
  severity = medium;
  user_id = "unknown";
  ip_address = "10.0.0.1";
  resource = "";
  description = "SELECT 1";
  user_agent = "";
  timestamp = 9;
  investigated = false;
}

deadlock_example : log_event platform attack false auditor ≡ deadlock
unfolding has_pattern reports_injection
deadlock_example = log_event_outcome platform attack auditor
