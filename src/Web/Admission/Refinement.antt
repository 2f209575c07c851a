-- ===== src/Web/Admission/Refinement.antt =====
-- The sliding window of `check_rate_limit` against a log of all the requests that were let in.
use distributed_data_science.Prelude.{
  ℕ, ◌+◌, ◌-◌, ◌≤◌, ◌≡◌, refl, ap, ◌∙◌, Bool, true, false, not, ◌&&◌, String, List, [], ◌∷◌, ◌++◌,
  arith, inl, inr, ltb, leb, if◌then◌else◌, ◌=?◌, string_key, =?_iff, Bool-cases, length, count_if,
  count_if-append,
}
use distributed_data_science.Prelude.Maps.{lookup, lookup_or, insert, lookup_or-insert}
use distributed_data_science.Web.Admission.{RateLimiter, in_window, check_rate_limit}

-- What is promised: `accepted` lists every request that was ever let in.
pub record AcceptLog : Type 0 where
  pub accepted : List (String × ℕ)
  pub window : ℕ
  pub limit : ℕ

-- Not older than the window before `now`.
unfoldable pub is_recent : ℕ → ℕ → ℕ → Bool
is_recent now window t = not (ltb t (now - window))

unfoldable pub recent_of : String → ℕ → AcceptLog → ℕ
unfolding is_recent
recent_of client now a =
    count_if (λ entry. (entry.0 =? client) && is_recent now a.window entry.1) a.accepted

-- A request is let in if fewer than `limit` of the client's were within the window.
unfoldable pub admit : String → ℕ → AcceptLog → Bool × AcceptLog
unfolding recent_of
admit client now a =
    if ltb (recent_of client now a) a.limit
    then (true, record a { accepted = (client, now) ∷ a.accepted })
    else (false, a)

-- The answers to a sequence of requests.
unfoldable pub answers : List (String × ℕ) → RateLimiter → List Bool
unfolding check_rate_limit
answers [] r = []
answers ((client, now) ∷ calls) r =
    let (ok, r') = check_rate_limit client now r in ok ∷ answers calls r'

unfoldable pub admissions : List (String × ℕ) → AcceptLog → List Bool
unfolding admit
admissions [] a = []
admissions ((client, now) ∷ calls) a = let (ok, a') = admit client now a in ok ∷ admissions calls a'

-- The clock does not go back.
abbrev pub IsTimed : ℕ → List (String × ℕ) → Type 0
IsTimed last [] = Unit
IsTimed last ((client, now) ∷ calls) = (last ≤ now) × IsTimed now calls

length-in_window :
    (now window : ℕ) (ts : List ℕ)
    → length (in_window now window ts) ≡ count_if (is_recent now window) ts
unfolding is_recent in_window
length-in_window now window [] = refl
length-in_window now window (t ∷ ts) = ground (arith, length-in_window now window ts)

-- What was dropped from a window is in no later one.
count_if-in_window :
    (now later window : ℕ) (ts : List ℕ)
    → now ≤ later
    → count_if (is_recent later window) (in_window now window ts)
      ≡ count_if (is_recent later window) ts
unfolding is_recent in_window
count_if-in_window now later window [] h = refl
count_if-in_window now later window (t ∷ ts) h =
    ground (arith, count_if-in_window now later window ts h)

-- From `last` on both count the same for every client.
abbrev pub IsRepresented : ℕ → RateLimiter → AcceptLog → Type 0
IsRepresented last r a =
    (r.rate_limit_window ≡ a.window)
    × (r.max_requests_per_minute ≡ a.limit)
    × ((client : String) (now : ℕ)
        → last ≤ now
        → count_if (is_recent now a.window) (lookup_or [] client r.rate_limit_requests)
          ≡ recent_of client now a)

count_if_one :
    (p : ℕ → Bool) (t : ℕ) (ts : List ℕ)
    → count_if p (ts ++ t ∷ []) ≡ (if p t then 1 else 0) + count_if p ts
count_if_one p t ts = ground (arith, count_if-append p ts (t ∷ []))

module _ (client : String) (last now : ℕ) (r : RateLimiter) (a : AcceptLog) where
  abbrev old : List ℕ
  old = lookup_or [] client r.rate_limit_requests

  abbrev requests : List ℕ
  requests = in_window now r.rate_limit_window old

  recent_requests : last ≤ now → IsRepresented last r a → length requests ≡ recent_of client now a
  recent_requests h (w, m, c) =
      length-in_window now r.rate_limit_window old
      ∙ ap (λ x. count_if (is_recent now x) old) w
      ∙ c client now h

  requests_later :
      (later : ℕ)
      → now ≤ later
      → last ≤ now
      → IsRepresented last r a
      → count_if (is_recent later a.window) requests ≡ recent_of client later a
  requests_later later g h (w, m, c) =
      ap (λ x. count_if (is_recent later a.window) (in_window now x old)) w
      ∙ count_if-in_window now later a.window old g
      ∙ c client later (omega arith)

  kept_requests :
      (other : String) (later : ℕ)
      → now ≤ later
      → last ≤ now
      → IsRepresented last r a
      → count_if
          (is_recent later a.window)
          (lookup_or [] other (insert client requests r.rate_limit_requests))
        ≡ recent_of other later a
  kept_requests other later g h v = ground (
    arith,
    lookup_or-insert [] client other requests r.rate_limit_requests,
    =?_iff client other,
    requests_later later g h v,
    v.2 other later (omega arith),
  )

  added_request :
      (other : String) (later : ℕ)
      → now ≤ later
      → last ≤ now
      → IsRepresented last r a
      → count_if
          (is_recent later a.window)
          (lookup_or [] other (insert client (requests ++ now ∷ []) r.rate_limit_requests))
        ≡ recent_of other later (record a { accepted = (client, now) ∷ a.accepted })
  unfolding recent_of
  added_request other later g h v = ground (
    arith,
    lookup_or-insert [] client other (requests ++ now ∷ []) r.rate_limit_requests,
    =?_iff client other,
    count_if_one (is_recent later a.window) now requests,
    requests_later later g h v,
    v.2 other later (omega arith),
  )

  step-IsRepresented :
      last ≤ now
      → IsRepresented last r a
      → let (ok, r') = check_rate_limit client now r in
        let (ok', a') = admit client now a in (ok ≡ ok') × IsRepresented now r' a'
  unfolding check_rate_limit admit
  step-IsRepresented h v =
      let n = recent_requests h v in
      elim (Bool-cases (leb r.max_requests_per_minute (length requests))) [
        | inl full ↦
            let full' : ltb (recent_of client now a) a.limit ≡ false = ground (arith, n, v.1) in
            rw (full, full', check_rate_limit, admit)
              (refl, (v.0, v.1, λ other later g. kept_requests other later g h v))
        | inr room ↦
            let room' : ltb (recent_of client now a) a.limit ≡ true = ground (arith, n, v.1) in
            rw (room, room', check_rate_limit, admit)
              (refl, (v.0, v.1, λ other later g. added_request other later g h v))
      ]

answers_refine :
    (last : ℕ) (calls : List (String × ℕ)) (r : RateLimiter) (a : AcceptLog)
    → IsTimed last calls
    → IsRepresented last r a
    → answers calls r ≡ admissions calls a
unfolding answers admissions
answers_refine last [] r a h v = refl
answers_refine last ((client, now) ∷ calls) r a (h, t) v =
    let (same, w) = step-IsRepresented client last now r a h v in
    let rest =
      answers_refine now calls (check_rate_limit client now r).1 (admit client now a).1 t w in
    cc

-- From an empty limiter, and while the clock does not go back, `check_rate_limit` answers every
-- sequence of requests as a limiter does that keeps all the requests it ever let in and counts
-- those of the client that are within the window: dropping the old ones on the way, one client
-- at a time, changes no answer.
pub check_rate_limit_refines :
    (window limit : ℕ) (calls : List (String × ℕ))
    → IsTimed 0 calls
    → answers calls (record {
      rate_limit_requests = [];
      rate_limit_window = window;
      max_requests_per_minute = limit;
    })
      ≡ admissions calls (record { accepted = []; window = window; limit = limit })
unfolding recent_of lookup_or lookup
check_rate_limit_refines window limit calls t =
    answers_refine 0 calls
      (record {
        rate_limit_requests = [];
        rate_limit_window = window;
        max_requests_per_minute = limit;
      })
      (record { accepted = []; window = window; limit = limit }) t
      (refl, refl, λ client now h. refl)
