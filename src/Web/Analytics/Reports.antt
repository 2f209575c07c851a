-- ===== src/Web/Analytics/Reports.antt =====
-- Which reports can be made (src/web/web_server.cpp).
use distributed_data_science.Prelude.{
  ℕ, ◌≡◌, false, [], arith, if◌then◌else◌, is_empty, take, inl, inr, List-cases,
}
use distributed_data_science.Prelude.Mutex.{returns, deadlock}
use distributed_data_science.Web.Analytics.{
  Analytics, Doubles, collect, calculate_endpoint_average_response_time,
  calculate_endpoint_error_rate, get_top_performing_endpoints, get_top_error_endpoints,
}

-- The lists of the best and of the worst endpoints can be asked for only as long as no endpoint is
-- known: they hold the mutex when they ask for the rate of the first one, and never return.
top_endpoints_outcome :
    {D : Type 0} (d : Doubles D) (limit : ℕ) (a : Analytics)
    → (get_top_performing_endpoints d limit false a ≡ (
        if is_empty a.endpoint_performance
        then returns (take limit (d.sort_ascending []), a)
        else deadlock))
      × (get_top_error_endpoints d limit false a ≡ (
          if is_empty a.endpoint_request_counts
          then returns (take limit (d.sort_descending []), a)
          else deadlock))
unfolding get_top_performing_endpoints get_top_error_endpoints collect
    calculate_endpoint_average_response_time calculate_endpoint_error_rate
top_endpoints_outcome d limit a = (
  elim (List-cases a.endpoint_performance) [
    | inl e ↦ ground arith
    | inr (x, rest, e) ↦ ground arith
  ],
  elim (List-cases a.endpoint_request_counts) [
    | inl e ↦ ground arith
    | inr (x, rest, e) ↦ ground arith
  ],
)
