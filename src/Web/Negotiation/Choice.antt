-- ===== src/Web/Negotiation/Choice.antt =====
-- Which option `select_best_match` chooses (src/web/web_server.cpp).
use distributed_data_science.Prelude.{
  ◌≡◌, refl, =?_refl, subst, sym, ◌∙◌, true, false, none, some, String, List, [], ◌∷◌, arith,
  if◌then◌else◌, string_key, ◌⊎◌, inl, inr, All, All-map, Option-cases, Bool-cases,
}
use distributed_data_science.Prelude.Maps.{lookup, has}
use mathlib.Core.Bool.{false≢true}
use distributed_data_science.Web.Accounts.{contains}
use distributed_data_science.Web.Negotiation.{Numbers, best_option, wildcards, select_best_match}

-- What the choice needs of `>`; a quality that is not a number would not have it.
pub record IsOrder {Q : Type 0} (n : Numbers Q) : Type 0 where
  pub irreflexive : (a : Q) → n.above a a ≡ false
  pub transitive : (a b c : Q) → n.above a b ≡ true → n.above b c ≡ true → n.above a c ≡ true
  pub between : (a b c : Q) → n.above a c ≡ true → (n.above a b ≡ true) ⊎ (n.above b c ≡ true)

module _ {Q : Type 0} (n : Numbers Q) (qualities : List (String × Q)) where
  -- The quality of an option, 0 if it has none.
  abbrev pub quality : String → Q
  quality option = elim (lookup option qualities) [ none ↦ n.zero | some q ↦ q ]

  -- One turn of the first loop.
  abbrev pick : String → String × Q → String × Q
  pick option best = elim (lookup option qualities) [
    | none ↦ best
    | some q ↦ if n.above q best.1 then (option, q) else best
  ]

  pick-cases :
      (option : String) (best : String × Q)
      → n.above n.zero best.1 ≡ false
      → ((pick option best ≡ best) × (n.above (quality option) best.1 ≡ false))
        ⊎ ((pick option best ≡ (option, quality option)) × (n.above (quality option) best.1 ≡ true))
  pick-cases option best floor = elim (Option-cases (lookup option qualities)) [
    | inl e ↦ inl (ground arith, ground arith)
    | inr (q, e) ↦ elim (Bool-cases (n.above q best.1)) [
      | inl better ↦ inr (ground arith, ground arith)
      | inr worse ↦ inl (ground arith, ground arith)
    ]
  ]

  -- What the loop leaves, from a best so far: nothing that was not better than that is better than
  -- the result, nor is an option of the loop, and the result is the best so far or an option.
  record IsBest (options : List String) (before after : String × Q) : Type 0 where
    pub still : (q : Q) → n.above q before.1 ≡ false → n.above q after.1 ≡ false
    pub none_better : All (λ o. n.above (quality o) after.1 ≡ false) options
    pub chosen :
        (after ≡ before) ⊎ ((contains after.0 options ≡ true) × (quality after.0 ≡ after.1))

  contains-first : (o : String) (options : List String) → contains o (o ∷ options) ≡ true
  unfolding contains
  contains-first o options = ground (arith, =?_refl o)

  contains-more :
      (o : String) (options : List String) (p : String)
      → contains p options ≡ true
      → contains p (o ∷ options) ≡ true
  unfolding contains
  contains-more o options p h = ground arith

  no_wildcards :
      (first : String) (rest : List (String × Q)) (best : String × Q)
      → has "*/*" rest ≡ false
      → has "*" rest ≡ false
      → wildcards n first rest best ≡ best
  unfolding wildcards has
  no_wildcards first [] best h k = refl
  no_wildcards first ((type, q) ∷ rest) best h k = ground (arith, no_wildcards first rest best)

  module _ (order : IsOrder n) where
    raised : (a b q : Q) → n.above b a ≡ true → n.above q a ≡ false → n.above q b ≡ false
    raised a b q up below = elim (Bool-cases (n.above q b)) [
      | inl above ↦ absurd (false≢true (sym below ∙ order.transitive q b a above up))
      | inr not_above ↦ not_above
    ]

    best_option-IsBest :
        (options : List String) (best : String × Q)
        → n.above n.zero best.1 ≡ false
        → IsBest options best (best_option n qualities options best)
    unfolding best_option contains
    best_option-IsBest [] best floor = record {
      still = λ q h. h;
      none_better = tt;
      chosen = inl refl;
    }
    best_option-IsBest (o ∷ options) best floor =
        let goal =
          λ (b : String × Q). IsBest (o ∷ options) best (best_option n qualities options b) in
        elim (pick-cases o best floor) [
          | inl (kept, worse) ↦
              let later = best_option-IsBest options best floor in
              subst goal (sym kept) (record {
                still = later.still;
                none_better = (later.still (quality o) worse, later.none_better);
                chosen = elim later.chosen [
                  | inl same ↦ inl same
                  | inr (listed, e) ↦ inr (contains-more o options _ listed, e)
                ];
              })
          | inr (taken, better) ↦
              let best' : String × Q = (o, quality o) in
              let up = raised best.1 (quality o) in
              let later = best_option-IsBest options best' (up n.zero better floor) in
              subst goal (sym taken) (record {
                still = λ q h. later.still q (up q better h);
                none_better =
                    (later.still (quality o) (order.irreflexive (quality o)), later.none_better);
                chosen = elim later.chosen [
                  | inl same ↦ inr (
                    subst (λ (b : String × Q). contains b.0 (o ∷ options) ≡ true) (sym same)
                        (contains-first o options),
                    subst (λ (b : String × Q). quality b.0 ≡ b.1) (sym same) refl,
                  )
                  | inr (listed, e) ↦ inr (contains-more o options _ listed, e)
                ];
              })
        ]

    not_above_floor :
        (a c : Q) → n.above a n.zero ≡ false → n.above n.zero c ≡ false → n.above a c ≡ false
    not_above_floor a c low floor = elim (Bool-cases (n.above a c)) [
      | inl above ↦ elim (order.between a n.zero c above) [
        | inl x ↦ absurd (false≢true (sym low ∙ x))
        | inr x ↦ absurd (false≢true (sym floor ∙ x))
      ]
      | inr not_above ↦ not_above
    ]

    -- An option of a list, with none better in it.
    abbrev Best : List String → String → Type 0
    Best options option =
        (contains option options ≡ true)
        × All (λ o. n.above (quality o) (quality option) ≡ false) options

    best_option-Best :
        (first : String) (options : List String)
        → n.above n.zero (quality first) ≡ false
        → Best (first ∷ options) (best_option n qualities (first ∷ options) (first, n.zero)).0
    best_option-Best first options floor =
        let all = first ∷ options in
        let after = best_option n qualities all (first, n.zero) in
        let b = best_option-IsBest all (first, n.zero) (order.irreflexive n.zero) in
        elim b.chosen [
          | inl same ↦
              subst (λ (x : String × Q). Best all x.0) (sym same)
                (
                  contains-first first options,
                  All-map (λ o. n.above (quality o) n.zero ≡ false)
                      (λ o. n.above (quality o) (quality first) ≡ false) all
                      (λ o low. not_above_floor (quality o) (quality first) low floor)
                      (subst (λ (x : String × Q). All (λ o. n.above (quality o) x.1 ≡ false) all)
                        same b.none_better),
                )
          | inr (listed, e) ↦ (
            listed,
            subst (λ q. All (λ o. n.above (quality o) q ≡ false) all) (sym e) b.none_better,
          )
        ]

    -- Without a wildcard in the header, and with no quality below 0 for the first option, the chosen option is one
    -- of the available ones, and none of them has a higher quality, where an option that the header
    -- does not name has quality 0.
    pub select_best_match-best :
        (first : String) (options : List String)
        → has "*/*" qualities ≡ false
        → has "*" qualities ≡ false
        → n.above n.zero (quality first) ≡ false
        → (contains (select_best_match n qualities first options) (first ∷ options) ≡ true)
          × All
              (λ o.
                n.above (quality o) (quality (select_best_match n qualities first options)) ≡ false)
              (first ∷ options)
    unfolding select_best_match
    select_best_match-best first options no_any no_star floor =
        let after = best_option n qualities (first ∷ options) (first, n.zero) in
        subst (λ (x : String × Q). Best (first ∷ options) x.0)
          (sym (no_wildcards first qualities after no_any no_star))
          (best_option-Best first options floor)
