-- ===== src/Web/Protection/Spacing.antt =====
-- How often an address gets in (src/web/web_server.cpp, `is_rate_limited_by_ip`).
use distributed_data_science.Prelude.{
  ℕ, ◌+◌, ◌≤◌, ◌-◌, ◌≡◌, ◌⊎◌, refl, sym, subst, ltb, Bool, true, false, Option, none, some, String,
  List, [], ◌∷◌, arith, if◌then◌else◌, ◌=?◌, string_key, =?_iff, inl, inr, Option-cases, Bool-cases,
}
use distributed_data_science.Prelude.Maps.{lookup, insert, lookup-insert}
use distributed_data_science.Web.Protection.{Protection, limit_ip}

-- The times at which an address gets in, of the visits of all addresses.
unfoldable pub admitted : String → List (String × ℕ) → Protection → List ℕ
unfolding limit_ip
admitted ip [] p = []
admitted ip ((address, now) ∷ visits) p =
    let (limited, p') = limit_ip address now p in
    let rest = admitted ip visits p' in
    if limited then rest else if address =? ip then now ∷ rest else rest

-- Each time is at least a minute behind the one before it.
abbrev pub IsSpaced : Option ℕ → List ℕ → Type 0
IsSpaced last [] = Unit {0}
IsSpaced none (t ∷ ts) = IsSpaced (some t) ts
IsSpaced (some last) (t ∷ ts) = (last + 60 ≤ t) × IsSpaced (some t) ts

-- One visit: it is refused and changes nothing, or it is admitted and the table has its time.
limit_ip-cases :
    (address : String) (now : ℕ) (p : Protection)
    → (limit_ip address now p ≡ (true, p))
      ⊎ ((limit_ip address now p
            ≡ (false, record p { ip_rate_limits = insert address now p.ip_rate_limits }))
          × ((rest : List ℕ)
              → IsSpaced (some now) rest
              → IsSpaced (lookup address p.ip_rate_limits) (now ∷ rest)))
unfolding limit_ip
limit_ip-cases address now p = elim (Option-cases (lookup address p.ip_rate_limits)) [
  | inl e ↦ inr (rw (e, limit_ip) refl, λ rest h. subst (λ o. IsSpaced o (now ∷ rest)) (sym e) h)
  | inr (last, e) ↦ elim (Bool-cases (ltb (now - last) 60)) [
    | inl soon ↦ inl (ground arith)
    | inr late ↦
        inr (ground arith, λ rest h. subst (λ o. IsSpaced o (now ∷ rest)) (sym e) (ground arith, h))
  ]
]

-- Two admissions of an address are at least a minute apart, whatever order the clock's readings have
-- and whoever else comes, from the time that the table has for it.
pub admitted-IsSpaced :
    (ip : String) (visits : List (String × ℕ)) (p : Protection)
    → IsSpaced (lookup ip p.ip_rate_limits) (admitted ip visits p)
unfolding admitted limit_ip
admitted-IsSpaced ip [] p = tt
admitted-IsSpaced ip ((address, now) ∷ visits) p =
    let goal = λ (r : Bool × Protection). IsSpaced (lookup ip p.ip_rate_limits) (
      if r.0
      then admitted ip visits r.1
      else if address =? ip
      then now ∷ admitted ip visits r.1
      else admitted ip visits r.1) in
    elim (limit_ip-cases address now p) [
      | inl refused ↦ subst goal (sym refused) (admitted-IsSpaced ip visits p)
      | inr (entered, joins) ↦
          let p' : Protection = record p { ip_rate_limits = insert address now p.ip_rate_limits } in
          let later = admitted ip visits p' in
          let spaced = admitted-IsSpaced ip visits p' in
          let table = lookup-insert address ip now p.ip_rate_limits in
          subst goal (sym entered) (elim (Bool-cases (address =? ip)) [
            | inl same ↦
                let k : address ≡ ip = (=?_iff address ip).0 same in
                rw same (
                  subst (λ j. IsSpaced (lookup j p.ip_rate_limits) (now ∷ later)) k
                    (joins later (subst (λ o. IsSpaced o later) (rw same at table) spaced)))
            | inr other ↦ rw other (subst (λ o. IsSpaced o later) (rw other at table) spaced)
          ])
    ]
