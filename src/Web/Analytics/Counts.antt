-- ===== src/Web/Analytics/Counts.antt =====
-- What the counters count (src/web/web_server.cpp).
use distributed_data_science.Prelude.{
  ℕ, ◌+◌, ◌%◌, ◌^◌, ◌≡◌, refl, ap, ◌∙◌, Bool, true, String, List, [], ◌∷◌, arith, if◌then◌else◌,
  ◌=?◌, string_key, nat_key, =?_iff, leb, Option-cases, count_if, length,
}
use distributed_data_science.Prelude.Words.{increment}
use distributed_data_science.Prelude.Maps.{lookup, lookup_or, lookup_or-insert}
use distributed_data_science.Web.ResponseCache.Queries.{HttpRequest}
use distributed_data_science.Web.Analytics.{
  Analytics, count_request, record_user_agent, record_status_code, record_endpoint_performance,
  count_totals, record_ip_address, stamp,
}

-- A request that was answered.
record Answered : Type 0 where
  pub request : HttpRequest
  pub status_code : ℕ
  pub response_time : ℕ
  pub now : ℕ

unfoldable count_all : List Answered → Analytics → Analytics
unfolding count_request
count_all [] a = a
count_all (r ∷ rs) a = count_all rs (count_request r.request r.status_code r.response_time r.now a)

abbrev is_error : Answered → Bool
is_error r = leb 400 r.status_code

abbrev has_status : ℕ → Answered → Bool
has_status code r = r.status_code =? code

abbrev asks_for : String → Answered → Bool
asks_for path r = r.request.path =? path

-- One request counts up by 1 whatever it belongs to.
count_step :
    (r : Answered) (code : ℕ) (path : String) (a : Analytics)
    → let a' = count_request r.request r.status_code r.response_time r.now a in
      (a'.total_requests ≡ increment a.total_requests)
      × (a'.total_errors ≡ (if is_error r then increment a.total_errors else a.total_errors))
      × (lookup_or 0 code a'.status_code_counts ≡ (
          if has_status code r
          then increment (lookup_or 0 code a.status_code_counts)
          else lookup_or 0 code a.status_code_counts))
      × (lookup_or 0 path a'.endpoint_request_counts ≡ (
          if asks_for path r
          then increment (lookup_or 0 path a.endpoint_request_counts)
          else lookup_or 0 path a.endpoint_request_counts))
unfolding count_request record_user_agent record_status_code record_endpoint_performance
    count_totals record_ip_address stamp
count_step r code path a = ground (
  arith,
  Option-cases (lookup "User-Agent" r.request.headers),
  =?_iff r.status_code code,
  =?_iff r.request.path path,
  lookup_or-insert 0 r.status_code code (increment (lookup_or 0 r.status_code a.status_code_counts))
      a.status_code_counts,
  lookup_or-insert 0 r.request.path path
      (increment (lookup_or 0 r.request.path a.endpoint_request_counts)) a.endpoint_request_counts,
)

-- A counter that each request of a kind counts up.
tally :
    (counter : Analytics → ℕ) (kind : Answered → Bool)
    → ((r : Answered) (a : Analytics)
        → counter (count_request r.request r.status_code r.response_time r.now a)
          ≡ (if kind r then increment (counter a) else counter a))
    → (rs : List Answered) (a : Analytics)
    → counter (count_all rs a) % 2 ^ 64 ≡ (counter a + count_if kind rs) % 2 ^ 64
unfolding count_all increment
tally counter kind step [] a = omega arith
tally counter kind step (r ∷ rs) a =
    let a' = count_request r.request r.status_code r.response_time r.now a in
    ground (arith, step r a, tally counter kind step rs a')

count_if-all : (rs : List Answered) → count_if (λ r. true) rs ≡ length rs
count_if-all [] = refl
count_if-all (r ∷ rs) = omega (arith, count_if-all rs)

-- After any requests, each counter is what it was and the number of the requests of its kind, modulo
-- 2^64: all of them, those answered with a code of 400 or more, those answered with a given code, and
-- those for a given path.
count_all-tallies :
    (rs : List Answered) (code : ℕ) (path : String) (a : Analytics)
    → let a' = count_all rs a in
      (a'.total_requests % 2 ^ 64 ≡ (a.total_requests + length rs) % 2 ^ 64)
      × (a'.total_errors % 2 ^ 64 ≡ (a.total_errors + count_if is_error rs) % 2 ^ 64)
      × (lookup_or 0 code a'.status_code_counts % 2 ^ 64
          ≡ (lookup_or 0 code a.status_code_counts + count_if (has_status code) rs) % 2 ^ 64)
      × (lookup_or 0 path a'.endpoint_request_counts % 2 ^ 64
          ≡ (lookup_or 0 path a.endpoint_request_counts + count_if (asks_for path) rs) % 2 ^ 64)
count_all-tallies rs code path a = (
  tally (λ a. a.total_requests) (λ r. true) (λ r a. (count_step r code path a).0) rs a
      ∙ ap (λ n. (a.total_requests + n) % 2 ^ 64) (count_if-all rs),
  tally (λ a. a.total_errors) is_error (λ r a. (count_step r code path a).1) rs a,
  tally (λ a. lookup_or 0 code a.status_code_counts) (has_status code)
      (λ r a. (count_step r code path a).2) rs a,
  tally (λ a. lookup_or 0 path a.endpoint_request_counts) (asks_for path)
      (λ r a. (count_step r code path a).3) rs a,
)
