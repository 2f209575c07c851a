-- ===== src/Web/Requests/Refusals.antt =====
-- What `handle_request_sync` does with a request that is not valid, and what it counts
-- (src/web/web_server.cpp).
use Prim.Native.String.{len}
use distributed_data_science.Prelude.{
  false, Bool, ◌+◌, ◌%◌, ◌^◌, ◌≡◌, true, ◌||◌, some, List, [], ◌∷◌, arith, ltb, leb, ◌=?◌,
  string_key, codes, Bool-cases, ◌≤◌, inl, inr,
}
use distributed_data_science.Prelude.Words.{increment}
use distributed_data_science.Web.ResponseCache.Queries.{HttpRequest}
use distributed_data_science.Web.Accounts.{contains}
use distributed_data_science.Web.Sanitizing.{occurs}
use distributed_data_science.Web.Checks.{Limits, Refusal, allowed_methods, validate_request}
use distributed_data_science.Web.Requests.{
  Visit, hit, limited, fresh, Page, Reply, RequestServer, refusal_reply, handle_request_sync,
}

refused :
    (v : Limits) (req : HttpRequest)
    → v.validation_enabled ≡ true
    → occurs (codes "..") (codes req.path) ≡ true
    → (r : Refusal) × (validate_request v req ≡ some r) × (400 ≤ r.0)
unfolding validate_request
refused v req on dots = elim (Bool-cases (ltb v.max_request_size (len req.body))) [
  | inl large ↦ ((413, "Request body too large"), ground arith, omega arith)
  | inr small ↦ elim (Bool-cases (contains req.method allowed_methods)) [
    | inr other ↦ ((405, "HTTP method not allowed"), ground arith, omega arith)
    | inl allowed ↦ elim (Bool-cases (req.path =? "" || ltb 2048 (len req.path))) [
      | inl long ↦ ((400, "Invalid request path"), ground arith, omega arith)
      | inr fits ↦ ((400, "Invalid path characters detected"), ground arith, omega arith)
    ]
  ]
]

-- Every request is counted once, as successful or as failed.
abbrev pub IsCounted : RequestServer → Type 0
IsCounted s = (s.successful_requests + s.failed_requests) % 2 ^ 64 ≡ s.total_requests % 2 ^ 64

abbrev pub any_limited : List Visit → Bool
any_limited [] = false
any_limited (limited ∷ visits) = true
any_limited (hit ∷ visits) = any_limited visits
any_limited (fresh ∷ visits) = any_limited visits

module _ (render : Page → HttpRequest → List Visit → Reply) where
  when_refused :
      (req : HttpRequest) (visits : List Visit) (s : RequestServer) (r : Refusal)
      → validate_request s.limits req ≡ some r
      → handle_request_sync render req visits s ≡ (
        refusal_reply r,
        record s {
          failed_requests = increment s.failed_requests;
          total_requests = increment s.total_requests;
        },
      )
  unfolding handle_request_sync
  when_refused req visits s r e = ground arith

  -- With the validation on, a request whose path has `..` in it is refused with a code of at least
  -- 400 and counted as failed, and no route is looked for.
  pub handle_request_sync-traversal :
      (req : HttpRequest) (visits : List Visit) (s : RequestServer)
      → s.limits.validation_enabled ≡ true
      → occurs (codes "..") (codes req.path) ≡ true
      → let (reply, s') = handle_request_sync render req visits s in
        (leb 400 reply.status_code ≡ true)
        × (s'.router ≡ s.router)
        × (s'.failed_requests ≡ increment s.failed_requests)
        × (s'.successful_requests ≡ s.successful_requests)
  unfolding refusal_reply
  handle_request_sync-traversal req visits s on dots =
      let (r, e, large) = refused s.limits req on dots in
      ground (arith, when_refused req visits s r e)

  unfoldable pub handle_all : List (HttpRequest × List Visit) → RequestServer → RequestServer
  unfolding handle_request_sync
  handle_all [] s = s
  handle_all ((req, visits) ∷ reqs) s = handle_all reqs (handle_request_sync render req visits s).1
