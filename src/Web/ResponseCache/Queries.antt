-- ===== src/Web/ResponseCache/Queries.antt =====
-- The queries of the response cache (src/web/web_server.cpp), and the key that a request has in it.
use distributed_data_science.Prelude.{
  ℕ, none, some, String, List, [], ◌∷◌, string_key, length, concat,
}
use distributed_data_science.Prelude.Maps.{lookup}
use distributed_data_science.Web.ResponseCache.{ResponseCache}

pub record HttpRequest : Type 0 where
  pub method : String
  pub path : String
  pub body : String
  pub headers : List (String × String)
  pub query_params : List (String × String)

-- The parameters, with `&` between two of them.
unfoldable pub join_params : List (String × String) → String
join_params [] = ""
join_params ((k, v) ∷ []) = concat k (concat "=" v)
join_params ((k, v) ∷ param ∷ params) =
    concat k (concat "=" (concat v (concat "&" (join_params (param ∷ params)))))

unfoldable pub generate_cache_key : HttpRequest → String
unfolding lookup join_params
generate_cache_key req =
    let base = concat req.method (concat ":" req.path) in
    let key : String = elim req.query_params [
      | [] ↦ base
      | _ ∷ _ ↦ concat base (concat "?" (join_params req.query_params))
    ] in
    elim (lookup "Accept" req.headers) [
      | none ↦ key
      | some accept ↦ concat key (concat "|Accept:" accept)
    ]

module _ {R : Type 0} where
  unfoldable pub get_cache_hit_ratio : ResponseCache R → R
  get_cache_hit_ratio c = c.stats.cache_hit_ratio

  unfoldable pub get_cache_size : ResponseCache R → ℕ
  get_cache_size c = length c.response_cache

  unfoldable pub get_cache_hit_counts : ResponseCache R → List (String × ℕ)
  get_cache_hit_counts c = c.stats.cache_hit_counts

  unfoldable pub get_cache_miss_counts : ResponseCache R → List (String × ℕ)
  get_cache_miss_counts c = c.stats.cache_miss_counts
