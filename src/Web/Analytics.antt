-- ===== src/Web/Analytics.antt =====
-- What `WebServer` counts of its requests (src/web/web_server.cpp): `record_request_analytics` to
-- `reset_analytics`, in the monad of `analytics_mutex_`. The clock's reading is an argument, in
-- seconds; a time of response is a number of microseconds. The arithmetic of doubles and `std::sort`
-- are parameters. The two distributions that are sorted are left out.
use distributed_data_science.Prelude.{
  ℕ, ◌+◌, ◌-◌, Bool, true, false, Option, none, some, String, List, [], ◌∷◌, ◌++◌, ltb, leb, ◌==◌,
  if◌then◌else◌, ◌=?◌, string_key, nat_key, take, drop, length, is_empty,
}
use distributed_data_science.Prelude.Words.{increment}
use distributed_data_science.Prelude.Maps.{lookup, lookup_or, insert}
use distributed_data_science.Prelude.Mutex.{M, ◌>>=◌, ◌>>◌, pure, get, put, locked}
use distributed_data_science.Web.ResponseCache.Queries.{HttpRequest}
pub mod Counts
pub mod Reports

pub record Analytics : Type 0 where
  pub analytics_enabled : Bool
  pub endpoint_performance : List (String × List ℕ)
  pub endpoint_request_counts : List (String × ℕ)
  pub endpoint_error_counts : List (String × ℕ)
  pub status_code_counts : List (ℕ × ℕ)
  pub user_agent_counts : List (String × ℕ)
  pub ip_address_counts : List (String × ℕ)
  pub request_timestamps : List ℕ
  pub total_requests : ℕ
  pub total_responses : ℕ
  pub total_errors : ℕ
  pub analytics_start_time : ℕ

-- `v.push_back(x); if (v.size() > limit) v.erase(v.begin());`
unfoldable pub push_recent : ℕ → ℕ → List ℕ → List ℕ
push_recent limit x v =
    let longer = v ++ x ∷ [] in if ltb limit (length longer) then drop 1 longer else longer

unfoldable pub record_endpoint_performance : String → ℕ → Analytics → Analytics
unfolding insert lookup_or increment push_recent
record_endpoint_performance endpoint response_time a = record a {
  endpoint_performance =
      insert endpoint (push_recent 100 response_time (lookup_or [] endpoint a.endpoint_performance))
        a.endpoint_performance;
  endpoint_request_counts =
      insert endpoint (increment (lookup_or 0 endpoint a.endpoint_request_counts))
        a.endpoint_request_counts;
}

unfoldable pub record_status_code : ℕ → Analytics → Analytics
unfolding insert lookup_or increment
record_status_code status_code a = record a {
  status_code_counts =
      insert status_code (increment (lookup_or 0 status_code a.status_code_counts))
        a.status_code_counts;
}

unfoldable pub record_user_agent : String → Analytics → Analytics
unfolding insert lookup_or increment
record_user_agent user_agent a = record a {
  user_agent_counts =
      insert user_agent (increment (lookup_or 0 user_agent a.user_agent_counts))
        a.user_agent_counts;
}

unfoldable pub record_ip_address : String → Analytics → Analytics
unfolding insert lookup_or increment
record_ip_address ip_address a = record a {
  ip_address_counts =
      insert ip_address (increment (lookup_or 0 ip_address a.ip_address_counts))
        a.ip_address_counts;
}

unfoldable pub client_ip : HttpRequest → String
unfolding lookup
client_ip req = elim (lookup "X-Forwarded-For" req.headers) [
  | some ip ↦ ip
  | none ↦ elim (lookup "X-Real-IP" req.headers) [ some ip ↦ ip | none ↦ "unknown" ]
]

unfoldable pub count_totals : ℕ → Analytics → Analytics
unfolding increment
count_totals status_code a = record a {
  total_requests = increment a.total_requests;
  total_responses = increment a.total_responses;
  total_errors = if leb 400 status_code then increment a.total_errors else a.total_errors;
}

unfoldable pub stamp : ℕ → Analytics → Analytics
unfolding push_recent
stamp now a = record a { request_timestamps = push_recent 1000 now a.request_timestamps }

-- Within the mutex.
unfoldable pub count_request : HttpRequest → ℕ → ℕ → ℕ → Analytics → Analytics
unfolding count_totals record_endpoint_performance record_status_code record_user_agent
    record_ip_address client_ip stamp lookup
count_request req status_code response_time now a =
    let counted =
      record_status_code status_code
        (record_endpoint_performance req.path response_time (count_totals status_code a)) in
    let agent : Analytics = elim (lookup "User-Agent" req.headers) [
      | none ↦ counted
      | some user_agent ↦ record_user_agent user_agent counted
    ] in
    stamp now (record_ip_address (client_ip req) agent)

unfoldable pub record_request_analytics : HttpRequest → ℕ → ℕ → ℕ → M Analytics (Unit {0})
unfolding count_request
record_request_analytics req status_code response_time now = get >>= λ a.
    if a.analytics_enabled
    then locked (get >>= λ b. put (count_request req status_code response_time now b))
    else pure tt

unfoldable pub get_endpoint_request_count : String → M Analytics ℕ
unfolding lookup_or
get_endpoint_request_count endpoint =
    locked (get >>= λ a. pure (lookup_or 0 endpoint a.endpoint_request_counts))

unfoldable pub get_status_code_distribution : M Analytics (List (ℕ × ℕ))
get_status_code_distribution = locked (get >>= λ a. pure a.status_code_counts)

unfoldable pub reset_analytics : ℕ → M Analytics (Unit {0})
reset_analytics now = locked (
    get >>= λ a. put (record a {
      endpoint_performance = [];
      endpoint_request_counts = [];
      endpoint_error_counts = [];
      status_code_counts = [];
      user_agent_counts = [];
      ip_address_counts = [];
      request_timestamps = [];
      total_requests = 0;
      total_responses = 0;
      total_errors = 0;
      analytics_start_time = now;
    }))

-- `divide a b` is `a / b` and `percent a b` is `a / b * 100.0`. `sort` is `std::sort` by a comparison
-- of the second components, the smallest or the largest first.
pub record Doubles (D : Type 0) : Type 0 where
  pub zero : D
  pub of_count : ℕ → D
  pub divide : ℕ → ℕ → D
  pub percent : ℕ → ℕ → D
  pub is_positive : D → Bool
  pub sort_ascending : List (String × D) → List (String × D)
  pub sort_descending : List (String × D) → List (String × D)

unfoldable pub sum : List ℕ → ℕ
sum [] = 0
sum (x ∷ xs) = x + sum xs

unfoldable pub sum_all : List (String × List ℕ) → ℕ
unfolding sum
sum_all [] = 0
sum_all ((endpoint, times) ∷ rest) = sum times + sum_all rest

module _ {D : Type 0} (d : Doubles D) where
  unfoldable pub calculate_endpoint_average_response_time : String → M Analytics D
  unfolding lookup sum
  calculate_endpoint_average_response_time endpoint = locked (
      get >>= λ a. elim (lookup endpoint a.endpoint_performance) [
        | none ↦ pure d.zero
        | some times ↦
            if is_empty times then pure d.zero else pure (d.divide (sum times) (length times))
      ])

  unfoldable pub calculate_endpoint_error_rate : String → M Analytics D
  unfolding lookup lookup_or
  calculate_endpoint_error_rate endpoint = locked (
      get >>= λ a. elim (lookup endpoint a.endpoint_request_counts) [
        | none ↦ pure d.zero
        | some count ↦
            if count == 0
            then pure d.zero
            else pure (d.percent (lookup_or 0 endpoint a.endpoint_error_counts) count)
      ])

  -- The loop over the endpoints, with the ones found so far.
  unfoldable pub collect :
      {V : Type 0}
      → (String → M Analytics D)
      → List (String × V)
      → List (String × D)
      → M Analytics (List (String × D))
  collect rate [] found = pure found
  collect rate ((endpoint, v) ∷ endpoints) found = rate endpoint >>= λ r.
      collect rate endpoints (if d.is_positive r then found ++ (endpoint, r) ∷ [] else found)

  unfoldable pub get_top_performing_endpoints : ℕ → M Analytics (List (String × D))
  unfolding collect calculate_endpoint_average_response_time
  get_top_performing_endpoints limit = locked (
      get >>= λ a.
      collect calculate_endpoint_average_response_time a.endpoint_performance [] >>= λ times.
      pure (take limit (d.sort_ascending times)))

  unfoldable pub get_top_error_endpoints : ℕ → M Analytics (List (String × D))
  unfolding collect calculate_endpoint_error_rate
  get_top_error_endpoints limit = locked (
      get >>= λ a. collect calculate_endpoint_error_rate a.endpoint_request_counts [] >>= λ errors.
      pure (take limit (d.sort_descending errors)))

  unfoldable pub get_requests_per_second : ℕ → M Analytics D
  get_requests_per_second now = locked (
      get >>= λ a.
      if is_empty a.request_timestamps
      then pure d.zero
      else if now - a.analytics_start_time == 0
      then pure (d.of_count a.total_requests)
      else pure (d.divide a.total_requests (now - a.analytics_start_time)))

  unfoldable pub get_average_response_time : M Analytics D
  unfolding sum_all
  get_average_response_time = locked (
      get >>= λ a.
      if a.total_responses == 0
      then pure d.zero
      else pure (d.divide (sum_all a.endpoint_performance) a.total_responses))

  unfoldable pub get_error_rate : M Analytics D
  get_error_rate = locked (
      get >>= λ a.
      if a.total_responses == 0
      then pure d.zero
      else pure (d.percent a.total_errors a.total_responses))
