-- ===== src/Web/Sanitizing/Entities.antt =====
-- The replacements one after another as one pass over the text.
use distributed_data_science.Prelude.{
  ℕ, ◌≡◌, refl, ◌∙◌, ap, Bool, true, false, List, [], ◌∷◌, ◌++◌, arith, ◌==◌, if◌then◌else◌, codes,
}
use mathlib.Core.List.{append_assoc}
use distributed_data_science.Web.Sanitizing.{
  entities, dangerous, replace_all, replace_each, encode_html_entities, remove, remove_each,
  sanitize_input,
}

-- What stands for a byte in the end.
unfoldable pub encoded : ℕ → List ℕ
encoded c =
    if c == b'"'
    then codes "&amp;quot;"
    else if c == b'&'
    then codes "&amp;"
    else if c == b'\''
    then codes "&#39;"
    else if c == b'<'
    then codes "&lt;"
    else if c == b'>'
    then codes "&gt;"
    else c ∷ []

unfoldable pub encode_each : List ℕ → List ℕ
unfolding encoded
encode_each [] = []
encode_each (c ∷ s) = encoded c ++ encode_each s

replace_all-append :
    (c : ℕ) (r s t : List ℕ) → replace_all c r (s ++ t) ≡ replace_all c r s ++ replace_all c r t
unfolding replace_all
replace_all-append c r [] t = refl
replace_all-append c r (x ∷ s) t =
    ground
      (arith, replace_all-append c r s t, append_assoc r (replace_all c r s) (replace_all c r t))

replace_each-append :
    (e : List (ℕ × List ℕ)) (s t : List ℕ)
    → replace_each e (s ++ t) ≡ replace_each e s ++ replace_each e t
unfolding replace_each
replace_each-append [] s t = refl
replace_each-append ((c, r) ∷ e) s t =
    ap (replace_each e) (replace_all-append c r s t)
    ∙ replace_each-append e (replace_all c r s) (replace_all c r t)

encode_html_entities-append :
    (s t : List ℕ)
    → encode_html_entities (s ++ t) ≡ encode_html_entities s ++ encode_html_entities t
unfolding encode_html_entities
encode_html_entities-append s t = replace_each-append entities s t

empty : encode_html_entities [] ≡ []
unfolding encode_html_entities replace_each replace_all
empty = refl

encode_one : (c : ℕ) → encode_html_entities (c ∷ []) ≡ encoded c
unfolding encode_html_entities replace_each replace_all encoded
encode_one c = ground arith

-- The entities come out encoded once for every byte, a quotation mark twice: the `&` of its `&quot;`
-- is replaced after it.
pub encode_html_entities-encode_each : (s : List ℕ) → encode_html_entities s ≡ encode_each s
unfolding encode_each
encode_html_entities-encode_each [] = empty
encode_html_entities-encode_each (c ∷ s) =
    encode_html_entities-append (c ∷ []) s
    ∙ ground (arith, encode_one c, encode_html_entities-encode_each s)

-- What stands for a byte in a sanitized text.
unfoldable pub sanitized : ℕ → List ℕ
sanitized c =
    if c == 0
    then []
    else if c == b'"'
    then codes "amp;quot;"
    else if c == b'&'
    then codes "amp;"
    else if c == b'\''
    then codes "#39;"
    else if c == b'<'
    then codes "lt;"
    else if c == b'>'
    then codes "gt;"
    else c ∷ []

unfoldable pub sanitize_each : List ℕ → List ℕ
unfolding sanitized
sanitize_each [] = []
sanitize_each (c ∷ s) = sanitized c ++ sanitize_each s

remove-append : (c : ℕ) (s t : List ℕ) → remove c (s ++ t) ≡ remove c s ++ remove c t
unfolding remove
remove-append c [] t = refl
remove-append c (x ∷ s) t = ground (arith, remove-append c s t)

remove_each-append :
    (cs s t : List ℕ) → remove_each cs (s ++ t) ≡ remove_each cs s ++ remove_each cs t
unfolding remove_each
remove_each-append [] s t = refl
remove_each-append (c ∷ cs) s t =
    ap (remove_each cs) (remove-append c s t) ∙ remove_each-append cs (remove c s) (remove c t)

sanitize_input-append :
    (s t : List ℕ) → sanitize_input true (s ++ t) ≡ sanitize_input true s ++ sanitize_input true t
unfolding sanitize_input
sanitize_input-append s t =
    ap (λ u. remove_each dangerous (encode_html_entities u)) (remove-append 0 s t)
    ∙ ap (remove_each dangerous) (encode_html_entities-append (remove 0 s) (remove 0 t))
    ∙ remove_each-append dangerous (encode_html_entities (remove 0 s))
        (encode_html_entities (remove 0 t))

sanitize_one : (c : ℕ) → sanitize_input true (c ∷ []) ≡ sanitized c
unfolding sanitize_input sanitized replace_each replace_all remove_each remove encode_html_entities
sanitize_one c = ground arith

nothing : sanitize_input true [] ≡ []
unfolding sanitize_input replace_each replace_all remove_each remove encode_html_entities
nothing = refl

switched_off : (s : List ℕ) → sanitize_input false s ≡ s
unfolding sanitize_input
switched_off s = refl

-- A sanitized text is the text with each byte replaced by itself, or by nothing for a zero byte, or
-- by the name of its entity without the `&` for the five bytes that have one, a quotation mark's with
-- `amp;` in front. With the security switched off it is the text itself.
pub sanitize_input-sanitize_each :
    (on : Bool) (s : List ℕ) → sanitize_input on s ≡ (if on then sanitize_each s else s)
unfolding sanitize_each
sanitize_input-sanitize_each false s = switched_off s
sanitize_input-sanitize_each true [] = nothing
sanitize_input-sanitize_each true (c ∷ s) =
    sanitize_input-append (c ∷ []) s
    ∙ ground (arith, sanitize_one c, sanitize_input-sanitize_each true s)
