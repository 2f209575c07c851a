-- ===== src/Web/Texts/Laws.antt =====
-- Where `find` stops, and what `substr` gives there.
use Prim.Native.Char.{Char, code, len_utf8}
use Prim.Native.String.{len, slice, find, begins}
use Prim.Native.String.find as find_clauses
use Prim.Native.String.append as append_clauses
use Prim.Native.String.len as len_clauses
use text.Mathlib.TextPositions.{slice-append_middle, slice-append_right, len-append}
use distributed_data_science.Prelude.{
  ℕ, ◌+◌, ◌<◌, ◌≡◌, subst, sym, ◌∙◌, ap, false, none, some, String, arith, ◌==◌, if◌then◌else◌,
  concat,
}
use distributed_data_science.Web.Texts.{substr, rest_from, find_from}

-- A text without a character.
abbrev pub Lacks : ℕ → String → Type 0
Lacks c String.[] = Unit {0}
Lacks c (String.◌∷◌ d s) = ((code d == c) ≡ false) × Lacks c s

-- The character stands at once, or the search goes on.
begins_one :
    (c d : Char) (s : String) (y n : ℕ)
    → begins (String.◌∷◌ d s) (String.◌∷◌ c String.[]) y n ≡ (if code d == code c then y else n)
begins_one c d String.[] y n = ground arith
begins_one c d (String.◌∷◌ e s) y n = ground arith

find_step :
    (c d : Char) (s : String)
    → find (String.◌∷◌ d s) (String.◌∷◌ c String.[])
      ≡ (if code d == code c then 0 else len_utf8 d + find s (String.◌∷◌ c String.[]))
find_step c d s = find_clauses.cons d s (String.◌∷◌ c String.[]) ∙ begins_one c d s 0 _

pub find-first :
    (c : Char) (s t : String)
    → Lacks (code c) s
    → find (concat s (String.◌∷◌ c t)) (String.◌∷◌ c String.[]) ≡ len s
find-first c String.[] t h =
    ap (λ w. find w (String.◌∷◌ c String.[])) (append_clauses.nil (String.◌∷◌ c t))
    ∙ ground (arith, find_step c c t, len_clauses.nil)
find-first c (String.◌∷◌ d s) t h =
    ap (λ w. find w (String.◌∷◌ c String.[])) (append_clauses.cons d s (String.◌∷◌ c t))
    ∙ ground (
      arith,
      find_step c d (concat s (String.◌∷◌ c t)),
      len_clauses.cons d s,
      find-first c s t h.1,
    )

-- A text that lacks the character has no place for it.
pub find-missing :
    (c : Char) (s : String) → Lacks (code c) s → len s < find s (String.◌∷◌ c String.[])
find-missing c String.[] h =
    ground (arith, find_clauses.nil (String.◌∷◌ c String.[]), len_clauses.nil)
find-missing c (String.◌∷◌ d s) h =
    ground (arith, find_step c d s, len_clauses.cons d s, find-missing c s h.1)

-- A text that begins with another one, read from the end of that one.
pub rest_from-append : (u s : String) → rest_from (concat u s) (len u) ≡ s
unfolding rest_from
rest_from-append u s =
    ap (λ n. slice (concat u s) (len u) n) (len-append u s) ∙ slice-append_right u s

pub find_from-first :
    (c : Char) (u s t : String)
    → Lacks (code c) s
    → find_from (concat u (concat s (String.◌∷◌ c t))) (String.◌∷◌ c String.[]) (len u)
      ≡ some (len u + len s)
unfolding find_from
find_from-first c u s t h = ground (
  arith,
  rest_from-append u (concat s (String.◌∷◌ c t)),
  find-first c s t h,
  len-append s (String.◌∷◌ c t),
)

pub find_from-missing :
    (c : Char) (u s : String)
    → Lacks (code c) s
    → find_from (concat u s) (String.◌∷◌ c String.[]) (len u) ≡ none
unfolding find_from
find_from-missing c u s h = ground (arith, rest_from-append u s, find-missing c s h)

pub substr-append : (u s t : String) → substr (concat u (concat s t)) (len u) (len s) ≡ s
unfolding substr
substr-append u s t = slice-append_middle u s t

pub Lacks-append : (c : ℕ) (s t : String) → Lacks c s → Lacks c t → Lacks c (concat s t)
Lacks-append c String.[] t h k = subst (Lacks c) (sym (append_clauses.nil t)) k
Lacks-append c (String.◌∷◌ d s) t h k =
    subst (Lacks c) (sym (append_clauses.cons d s t)) (h.0, Lacks-append c s t h.1 k)
