-- ===== src/Web/Tokens/Payload.antt =====
-- How `check_payload` cuts a payload.
use Prim.Native.Char.{Char, code}
use Prim.Native.String.{len, slice}
use Prim.Native.String.append as append_clauses
use text.Mathlib.TextLemmas.{append_assoc}
use text.Mathlib.TextPositions.{len-append, slice-append_left}
use native.Mathlib.Nat.{zero-add}
use distributed_data_science.Prelude.{
  ℕ, ◌+◌, ◌-◌, ◌≡◌, sym, subst, ◌∙◌, ap, false, not, none, some, String, arith, ltb, string_key,
  concat,
}
use distributed_data_science.Web.Texts.{substr, find_from}
use distributed_data_science.Web.Texts.Laws.{
  Lacks, find_from-first, find_from-missing, substr-append,
}
use distributed_data_science.Web.Tokens.{Issuer, answers, throws, check_payload}

abbrev pub bar : Char
bar = "|"

pub one-append : (c : Char) (t : String) → concat (String.◌∷◌ c String.[]) t ≡ String.◌∷◌ c t
one-append c t = append_clauses.cons c String.[] t ∙ ap (String.◌∷◌ c) (append_clauses.nil t)

pub find_from_start :
    (c : Char) (s t : String)
    → Lacks (code c) s
    → find_from (concat s (String.◌∷◌ c t)) (String.◌∷◌ c String.[]) 0 ≡ some (len s)
find_from_start c s t h =
    let sought = find_from-first c "" s t h in
    subst (λ w. find_from w (String.◌∷◌ c String.[]) 0 ≡ some (len s))
      (append_clauses.nil (concat s (String.◌∷◌ c t))) (sought ∙ ap some (zero-add (len s)))

length_of_stamp : (a b : ℕ) → a + 1 + b - a - 1 ≡ b
length_of_stamp a b = omega arith

-- A payload of a name, a stamp and more, as `check_payload` cuts it.
module _ (u stamp tail : String) (name : Lacks b'|' u) (digits : Lacks b'|' stamp) where
  abbrev pub payload : String
  payload = concat u (String.◌∷◌ bar (concat stamp (String.◌∷◌ bar tail)))

  named : String
  named = concat u "|"

  regroup : payload ≡ concat named (concat stamp (String.◌∷◌ bar tail))
  unfolding named
  regroup =
      ap (concat u) (sym (one-append bar (concat stamp (String.◌∷◌ bar tail))))
      ∙ sym (append_assoc u "|" (concat stamp (String.◌∷◌ bar tail)))

  len-named : len named ≡ len u + 1
  unfolding named
  len-named = len-append u "|"

  first_bar : find_from payload "|" 0 ≡ some (len u)
  first_bar = find_from_start bar u (concat stamp (String.◌∷◌ bar tail)) name

  name_text : substr payload 0 (len u) ≡ u
  unfolding substr
  name_text =
      ap (slice payload 0) (zero-add (len u))
      ∙ slice-append_left u (String.◌∷◌ bar (concat stamp (String.◌∷◌ bar tail)))

  second_bar : find_from payload "|" (len u + 1) ≡ some (len u + 1 + len stamp)
  second_bar = rw (regroup, ← len-named) (find_from-first bar named stamp tail digits)

  stamp_text : substr payload (len u + 1) (len u + 1 + len stamp - len u - 1) ≡ stamp
  stamp_text =
      ap (substr payload (len u + 1)) (length_of_stamp (len u) (len stamp))
      ∙ rw (regroup, ← len-named) (substr-append named stamp (String.◌∷◌ bar tail))

  pub check_payload-fields :
      (w : Issuer) (now : ℕ)
      → check_payload w now payload ≡ elim (w.stoll stamp) [
        | none ↦ throws
        | some issued ↦ answers (not (ltb w.token_expiry (now - issued))) (some u)
      ]
  unfolding check_payload
  check_payload-fields w now = ground (arith, first_bar, second_bar, name_text, stamp_text)

-- A payload of a name and a stamp alone.
pub check_payload_short :
    (u stamp : String) (w : Issuer) (now : ℕ)
    → Lacks b'|' u
    → Lacks b'|' stamp
    → check_payload w now (concat u (String.◌∷◌ bar stamp)) ≡ answers false (some u)
unfolding check_payload substr
check_payload_short u stamp w now name digits = ground (
  arith,
  find_from_start bar u stamp name,
  zero-add (len u),
  slice-append_left u (String.◌∷◌ bar stamp),
  end_of_named,
)
  where
    end_of_named : find_from (concat u (String.◌∷◌ bar stamp)) "|" (len u + 1) ≡ none
    end_of_named =
        rw (← len-append u "|", ← one-append bar stamp, ← append_assoc u "|" stamp)
          (find_from-missing bar (concat u "|") stamp digits)
