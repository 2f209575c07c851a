-- ===== src/Monitoring/History.antt =====
-- The history of a metric against all its samples (src/monitoring/system_monitor.cpp).
use distributed_data_science.Prelude.{
  ℕ, suc, zero, ◌-◌, ◌≤◌, ◌≡◌, refl, sym, ap, ◌∙◌, String, List, [], ◌∷◌, ◌++◌, ltb, arith,
  if◌then◌else◌, ◌=?◌, string_key, =?_iff, length, drop, length-append, length-drop,
  append-assoc_one, inl, inr, Bool-cases,
}
use mathlib.Core.List.{append-nil}
use distributed_data_science.Prelude.Maps.{lookup, lookup_or, lookup_or-insert}
use distributed_data_science.Monitoring.{SystemMonitor, push_sample, record_performance_metric}

module _ {Double : Type 0} where
  -- What is promised of a metric: its samples, in order, of which the last 1000 are kept.
  unfoldable pub samples_of : String → List (String × Double) → List Double
  samples_of name [] = []
  samples_of name ((n, v) ∷ calls) =
      let rest = samples_of name calls in if n =? name then v ∷ rest else rest

  unfoldable pub last_1000 : List Double → List Double
  last_1000 xs = drop (length xs - 1000) xs

  drop-append_one :
      (k : ℕ) (xs : List Double) (v : Double)
      → k ≤ length xs
      → drop k (xs ++ v ∷ []) ≡ drop k xs ++ v ∷ []
  drop-append_one zero xs v h = refl
  drop-append_one (suc k) [] v h = absurd (omega arith)
  drop-append_one (suc k) (x ∷ xs) v h = drop-append_one k xs v (omega arith)

  drop-drop : (k : ℕ) (xs : List Double) → drop 1 (drop k xs) ≡ drop (suc k) xs
  drop-drop zero [] = refl
  drop-drop zero (x ∷ xs) = refl
  drop-drop (suc k) [] = refl
  drop-drop (suc k) (x ∷ xs) = drop-drop k xs

  push_sample-last_1000 :
      (v : Double) (xs : List Double) → push_sample v (last_1000 xs) ≡ last_1000 (xs ++ v ∷ [])
  unfolding push_sample last_1000
  push_sample-last_1000 v xs =
      let k = length xs - 1000 in
      let kept = drop-append_one k xs v (omega arith) in
      elim (Bool-cases (ltb 1000 (length (drop k xs ++ v ∷ [])))) [
        | inl over ↦
            let next : suc k ≡ length (xs ++ v ∷ []) - 1000 = ground (
              arith,
              length-append xs (v ∷ []),
              length-append (drop k xs) (v ∷ []),
              length-drop k xs,
            ) in
            rw (over, push_sample)
              (ap (drop 1) (sym kept)
                ∙ drop-drop k (xs ++ v ∷ [])
                ∙ ap (λ i. drop i (xs ++ v ∷ [])) next)
        | inr fits ↦
            let same : k ≡ length (xs ++ v ∷ []) - 1000 = ground (
              arith,
              length-append xs (v ∷ []),
              length-append (drop k xs) (v ∷ []),
              length-drop k xs,
            ) in
            rw (fits, push_sample) (sym kept ∙ ap (λ i. drop i (xs ++ v ∷ [])) same)
      ]

module _ {Double World : Type 0} where
  unfoldable pub record_all :
      List (String × Double) → SystemMonitor Double World → SystemMonitor Double World
  unfolding record_performance_metric
  record_all [] m = m
  record_all ((n, v) ∷ calls) m = record_all calls (record_performance_metric n v m)

  record_all-from :
      (name : String) (calls : List (String × Double)) (before : List Double)
      (m : SystemMonitor Double World)
      → lookup_or [] name m.performance_history ≡ last_1000 before
      → lookup_or [] name (record_all calls m).performance_history
        ≡ last_1000 (before ++ samples_of name calls)
  unfolding record_all samples_of record_performance_metric
  record_all-from name [] before m h = h ∙ ap last_1000 (sym (append-nil before))
  record_all-from name ((n, v) ∷ calls) before m h =
      let value = push_sample v (lookup_or [] n m.performance_history) in
      let now = lookup_or-insert [] n name value m.performance_history in
      let next = record_performance_metric n v m in
      elim (Bool-cases (n =? name)) [
        | inl same ↦
            let e : n ≡ name = (=?_iff n name).0 same in
            let recorded : lookup_or [] name next.performance_history
                ≡ last_1000 (before ++ v ∷ []) =
              now ∙ rw (same, e, h) (push_sample-last_1000 v before) in
            rw (same, samples_of)
              (record_all-from name calls (before ++ v ∷ []) next recorded
                ∙ ap last_1000 (append-assoc_one before v (samples_of name calls)))
        | inr other ↦
            let recorded : lookup_or [] name next.performance_history ≡ last_1000 before =
              now ∙ rw other h in
            rw (other, samples_of) (record_all-from name calls before next recorded)
      ]

  -- From a monitor with no samples, the history of every metric is the last 1000 of the samples that were recorded
  -- under its name, in order, whatever was recorded under other names in between.
  pub record_all-last_1000 :
      (name : String) (calls : List (String × Double)) (m : SystemMonitor Double World)
      → m.performance_history ≡ []
      → lookup_or [] name (record_all calls m).performance_history
        ≡ last_1000 (samples_of name calls)
  unfolding last_1000 lookup_or lookup
  record_all-last_1000 name calls m h = record_all-from name calls [] m (ap (lookup_or [] name) h)
