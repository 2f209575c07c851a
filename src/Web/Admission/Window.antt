-- ===== src/Web/Admission/Window.antt =====
-- The rate limit: how many requests of a client are accepted in a window.
use distributed_data_science.Prelude.{
  ℕ, ◌-◌, ◌≤◌, ◌<◌, ◌≡◌, true, false, not, String, [], ◌∷◌, ◌++◌, arith, inl, inr, ltb, leb,
  string_key, =?_iff, =?_refl, Bool-cases, length, length-append, length-keep-le,
}
use distributed_data_science.Prelude.Maps.{lookup_or, insert, lookup_or-insert}
use distributed_data_science.Web.Admission.{RateLimiter, in_window, check_rate_limit}

-- At most `max_requests_per_minute_` requests of a client are kept, and each client's are its own: a
-- request is accepted exactly when fewer than that were accepted in the window before it.
pub check_rate_limit-bound :
    (client other : String) (now : ℕ) (r : RateLimiter)
    → length (lookup_or [] client r.rate_limit_requests) ≤ r.max_requests_per_minute
    → let (accepted, r') = check_rate_limit client now r in
      let before = in_window now r.rate_limit_window (lookup_or [] client r.rate_limit_requests) in
      (length (lookup_or [] client r'.rate_limit_requests) ≤ r'.max_requests_per_minute)
      × (accepted ≡ true → length before < r.max_requests_per_minute)
      × (accepted ≡ false → length before ≡ r.max_requests_per_minute)
      × (¬ (client ≡ other)
          → lookup_or [] other r'.rate_limit_requests ≡ lookup_or [] other r.rate_limit_requests)
unfolding check_rate_limit in_window
check_rate_limit-bound client other now r b =
    let old = lookup_or [] client r.rate_limit_requests in
    let requests = in_window now r.rate_limit_window old in
    let fewer : length requests ≤ length old =
      length-keep-le (λ t. not (ltb t (now - r.rate_limit_window))) old in
    let same : lookup_or [] client (insert client requests r.rate_limit_requests) ≡ requests =
      ground
        (arith, lookup_or-insert [] client client requests r.rate_limit_requests, =?_refl client) in
    let same' : lookup_or [] client (insert client (requests ++ now ∷ []) r.rate_limit_requests)
        ≡ requests ++ now ∷ [] =
      ground (
        arith,
        lookup_or-insert [] client client (requests ++ now ∷ []) r.rate_limit_requests,
        =?_refl client,
      ) in
    elim (Bool-cases (leb r.max_requests_per_minute (length requests))) [
      | inl full ↦
          rw (full, check_rate_limit)
            (
              ground (arith, same, fewer),
              (λ e. ground arith),
              (λ e. ground (arith, fewer)),
              (λ n. ground (
                arith,
                lookup_or-insert [] client other requests r.rate_limit_requests,
                =?_iff client other,
              )),
            )
      | inr room ↦
          rw (room, check_rate_limit)
            (
              ground (arith, same', length-append requests (now ∷ [])),
              (λ e. ground arith),
              (λ e. ground arith),
              (λ n. ground (
                arith,
                lookup_or-insert [] client other (requests ++ now ∷ []) r.rate_limit_requests,
                =?_iff client other,
              )),
            )
    ]
