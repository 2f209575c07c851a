-- ===== src/Tests/Requests.antt =====
-- Runs of the theorems on whole requests.
use distributed_data_science.Prelude.{List, ◌≡◌, refl, true, ◌||◌, leb, [], ◌∷◌, codes}
use distributed_data_science.Web.ResponseCache.Queries.{HttpRequest}
use distributed_data_science.Web.Sanitizing.{occurs, any_occurs}
use distributed_data_science.Web.Checks.{
  upper, upper_sql_patterns, upper_xss_patterns, contains_suspicious_content,
}
use distributed_data_science.Web.Requests.{
  Visit, Page, Reply, RequestServer, new_reply, handle_request_sync,
}
use distributed_data_science.Web.Requests.Suspicion.{contains_suspicious_content-blind}
use distributed_data_science.Web.Requests.Refusals.{handle_request_sync-traversal}

contains_suspicious_content-blind_example : contains_suspicious_content (codes "..%2f") ≡ (
    any_occurs upper_sql_patterns (upper (codes "..%2f"))
    || any_occurs upper_xss_patterns (upper (codes "..%2f"))
    || any_occurs ("../" ∷ "..\\" ∷ []) (upper (codes "..%2f")))
contains_suspicious_content-blind_example = contains_suspicious_content-blind (codes "..%2f")

abbrev get : HttpRequest
get = record { method = "GET"; path = "/../x"; body = ""; headers = []; query_params = [] }

abbrev plain_page : Page → HttpRequest → List Visit → Reply
plain_page p req visits = new_reply

abbrev idle : RequestServer
idle = record {
  limits = record { validation_enabled = true; max_request_size = 100; max_header_size = 50 };
  router = record { routes = []; route_cache = []; route_cache_enabled = true };
  middleware_stack = [];
  routing_enabled = true;
  middleware_enabled = true;
  successful_requests = 3;
  failed_requests = 4;
  total_requests = 7;
}

handle_request_sync-traversal_example :
    leb 400 (handle_request_sync plain_page get [] idle).0.status_code ≡ true
unfolding occurs
handle_request_sync-traversal_example =
    (handle_request_sync-traversal plain_page get [] idle refl refl).0

abbrev asks_status : HttpRequest
asks_status = record get { path = "/api/status" }
