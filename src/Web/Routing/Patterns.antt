-- ===== src/Web/Routing/Patterns.antt =====
-- Which paths a pattern matches (src/web/web_server.cpp, `match_route_pattern`).
use distributed_data_science.Prelude.{
  ◌≡◌, refl, true, false, not, String, List, [], ◌∷◌, arith, string_key, =?_iff, all_of,
}
use distributed_data_science.Web.Texts.{split_string}
use distributed_data_science.Web.Routing.{
  ends_with_star, is_parameter, match_parts, match_route_pattern,
}

abbrev pub IsPlain : List String → Type 0
IsPlain parts = all_of (λ p. not (is_parameter p)) parts ≡ true

match_parts-plain : (ps qs : List String) → IsPlain ps → match_parts ps qs ≡ true → ps ≡ qs
unfolding match_parts
match_parts-plain [] [] plain h = refl
match_parts-plain [] (q ∷ qs) plain h = cc
match_parts-plain (p ∷ ps) [] plain h = cc
match_parts-plain (p ∷ ps) (q ∷ qs) plain h =
    ground (arith, =?_iff p q, =?_iff p "", =?_iff q "", match_parts-plain ps qs)

-- A pattern that does not end with `*` and has no part that begins with `:` matches only the paths of the
-- same parts: a part `{id}` stands for itself alone.
pub match_route_pattern-plain :
    (pattern path : String)
    → ends_with_star pattern ≡ false
    → IsPlain (split_string pattern b'/')
    → match_route_pattern pattern path ≡ true
    → split_string pattern b'/' ≡ split_string path b'/'
unfolding match_route_pattern
match_route_pattern-plain pattern path open_end plain h = ground (
  arith,
  =?_iff pattern path,
  match_parts-plain (split_string pattern b'/') (split_string path b'/'),
)
