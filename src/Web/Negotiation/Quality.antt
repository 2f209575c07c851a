-- ===== src/Web/Negotiation/Quality.antt =====
-- Which qualities `parse_quality_values` reads (src/web/web_server.cpp).
use distributed_data_science.Prelude.{◌≡◌, refl, String, List, [], ◌∷◌, map}
use distributed_data_science.Web.Negotiation.{Numbers, is_quality, quality_of}

-- A part behind a `;` that begins with a space sets no quality, whatever it says: in
-- `text/html; q=0.1` the type has quality 1.
quality_of-spaced :
    {Q : Type 0} (n : Numbers Q) (parts : List String)
    → quality_of n (map (λ s. String.◌∷◌ " " s) parts) ≡ n.one
unfolding quality_of is_quality
quality_of-spaced n [] = refl
quality_of-spaced n (String.[] ∷ parts) = quality_of-spaced n parts
quality_of-spaced n (String.◌∷◌ c s ∷ parts) = quality_of-spaced n parts
