-- ===== src/Profiling/Summaries.antt =====
-- The statistics of a function against all its measurements (src/profiling/performance_profiler.cpp).
use mathlib.Core.List.{append-nil}
use native.Mathlib.Nat.{le-div_iff_mul-le, div-le_of_le-mul}
use distributed_data_science.Prelude.{
  ℕ, suc, ◌+◌, ◌*◌, ◌/◌, ◌^◌, ◌≤◌, ◌<◌, ◌≡◌, refl, sym, ap, ◌∙◌, subst, true, String, List, [], ◌∷◌,
  ◌++◌, arith, if◌then◌else◌, ◌=?◌, string_key, =?_iff, length, All, All-append, All-map,
  length-append, append-assoc_one, Bool-cases, inl, inr,
}
use distributed_data_science.Prelude.Words.{increment}
use distributed_data_science.Prelude.Maps.{lookup_or, lookup_or-insert}
use distributed_data_science.Profiling.{
  Measurement, Stats, Profiler, no_stats, least, greatest, begin_stats, add_measurement,
  update_stats, record_measurement, get_function_stat,
}

-- How long the measured calls of a function took, in order.
unfoldable pub times : String → List Measurement → List ℕ
times name [] = []
times name (m ∷ ms) =
    let rest = times name ms in if m.function_name =? name then m.duration ∷ rest else rest

unfoldable pub sum : List ℕ → ℕ
sum [] = 0
sum (d ∷ ds) = d + sum ds

unfoldable pub record_all : List Measurement → Profiler → Profiler
unfolding record_measurement
record_all [] p = p
record_all (m ∷ ms) p = record_all ms (record_measurement m p)

-- The statistics of a list of times.
pub record IsSummary (s : Stats) (ds : List ℕ) : Type 0 where
  pub counted : s.call_count ≡ length ds
  pub summed : s.total_time ≡ sum ds
  pub averaged : s.avg_time ≡ sum ds / length ds
  pub bounded : All (λ d. (s.min_time ≤ d) × (d ≤ s.max_time)) ds

sum-append_one : (ds : List ℕ) (d : ℕ) → sum (ds ++ d ∷ []) ≡ sum ds + d
unfolding sum
sum-append_one [] d = omega arith
sum-append_one (x ∷ ds) d = omega (arith, sum-append_one ds d)

sum-bounds :
    (lo hi : ℕ) (ds : List ℕ)
    → All (λ d. (lo ≤ d) × (d ≤ hi)) ds
    → (lo * length ds ≤ sum ds) × (sum ds ≤ length ds * hi)
unfolding sum
sum-bounds lo hi [] h = (omega arith, omega arith)
sum-bounds lo hi (d ∷ ds) ((low, high), h) =
    let (below, above) = sum-bounds lo hi ds h in (grind arith, grind arith)

-- One more call, of a function that has been called or not.
add_measurement-fields :
    (m : Measurement) (s : Stats)
    → (s.call_count + 1 < 2 ^ 64)
    → let t = add_measurement m s in
      (t.call_count ≡ s.call_count + 1)
      × (t.total_time ≡ s.total_time + m.duration)
      × (t.avg_time ≡ (s.total_time + m.duration) / (s.call_count + 1))
      × (t.min_time ≤ m.duration)
      × (m.duration ≤ t.max_time)
unfolding add_measurement begin_stats increment least greatest
add_measurement-fields m s h = ground arith

add_measurement-wider :
    (m : Measurement) (s : Stats) (n : ℕ)
    → s.call_count ≡ suc n
    → ((add_measurement m s).min_time ≤ s.min_time) × (s.max_time ≤ (add_measurement m s).max_time)
unfolding add_measurement begin_stats least greatest
add_measurement-wider m s n h = ground arith

old_bounded :
    (m : Measurement) (s : Stats) (ds : List ℕ)
    → s.call_count ≡ length ds
    → All (λ d. (s.min_time ≤ d) × (d ≤ s.max_time)) ds
    → let t = add_measurement m s in All (λ d. (t.min_time ≤ d) × (d ≤ t.max_time)) ds
old_bounded m s [] e h = tt
old_bounded m s (x ∷ ds) e h =
    let (lower, upper) = add_measurement-wider m s (length ds) e in
    All-map (λ d. (s.min_time ≤ d) × (d ≤ s.max_time))
      (λ d. ((add_measurement m s).min_time ≤ d) × (d ≤ (add_measurement m s).max_time)) (x ∷ ds)
      (λ d b. (omega (arith, b.0, lower), omega (arith, b.1, upper))) h

add_measurement-IsSummary :
    (m : Measurement) (s : Stats) (ds : List ℕ)
    → IsSummary s ds
    → length ds + 1 < 2 ^ 64
    → IsSummary (add_measurement m s) (ds ++ m.duration ∷ [])
add_measurement-IsSummary m s ds i h =
    let (count, total, mean, low, high) =
      add_measurement-fields m s (omega (arith, i.counted, h)) in
    let counts : (add_measurement m s).call_count ≡ length (ds ++ m.duration ∷ []) =
      omega (arith, count, i.counted, length-append ds (m.duration ∷ [])) in
    let sums : (add_measurement m s).total_time ≡ sum (ds ++ m.duration ∷ []) =
      omega (arith, total, i.summed, sum-append_one ds m.duration) in
    record {
      counted = counts;
      summed = sums;
      averaged =
          mean
          ∙ ap (λ n. n / (s.call_count + 1)) (sym total ∙ sums)
          ∙ ap (λ n. sum (ds ++ m.duration ∷ []) / n) (sym count ∙ counts);
      bounded =
          All-append
            (λ d. ((add_measurement m s).min_time ≤ d) × (d ≤ (add_measurement m s).max_time)) ds
            (m.duration ∷ []) (old_bounded m s ds i.counted i.bounded) ((low, high), tt);
    }

record_measurement-stat :
    (name : String) (m : Measurement) (p : Profiler)
    → p.enabled ≡ true
    → get_function_stat name (record_measurement m p) ≡ (
        if m.function_name =? name
        then add_measurement m (get_function_stat name p)
        else get_function_stat name p)
unfolding record_measurement update_stats get_function_stat
record_measurement-stat name m p on = ground (
  arith,
  lookup_or-insert no_stats m.function_name name
      (add_measurement m (lookup_or no_stats m.function_name p.stats)) p.stats,
  =?_iff m.function_name name,
)

record_measurement-enabled :
    (m : Measurement) (p : Profiler) → (record_measurement m p).enabled ≡ p.enabled
unfolding record_measurement
record_measurement-enabled m p = ground arith

record_all-from :
    (name : String) (ms : List Measurement) (p : Profiler) (ds : List ℕ)
    → p.enabled ≡ true
    → IsSummary (get_function_stat name p) ds
    → length ds + length ms < 2 ^ 64
    → IsSummary (get_function_stat name (record_all ms p)) (ds ++ times name ms)
unfolding record_all times
record_all-from name [] p ds on i h = rw (append-nil ds) i
record_all-from name (m ∷ ms) p ds on i h =
    let on' : (record_measurement m p).enabled ≡ true = record_measurement-enabled m p ∙ on in
    let stat = record_measurement-stat name m p on in
    elim (Bool-cases (m.function_name =? name)) [
      | inl same ↦
          let s = get_function_stat name p in
          let next =
            record_all-from name ms (record_measurement m p) (ds ++ m.duration ∷ []) on'
              (rw (stat, same) (add_measurement-IsSummary m s ds i (omega arith)))
              (omega (arith, h, length-append ds (m.duration ∷ []))) in
          rw same (
            subst (IsSummary (get_function_stat name (record_all (m ∷ ms) p)))
              (append-assoc_one ds m.duration (times name ms)) next)
      | inr other ↦ rw other (
          record_all-from name ms (record_measurement m p) ds on' (rw (stat, other) i)
            (omega arith))
    ]

average-bounds :
    (s : Stats) (ds : List ℕ)
    → IsSummary s ds
    → 0 < length ds
    → (s.min_time ≤ s.avg_time) × (s.avg_time ≤ s.max_time)
average-bounds s ds i some_call =
    let (below, above) = sum-bounds s.min_time s.max_time ds i.bounded in
    let lower = (le-div_iff_mul-le some_call).1 below in
    let upper = div-le_of_le-mul (length ds) above in
    (omega (arith, lower, i.averaged), omega (arith, upper, i.averaged))

-- After measurements that are fewer than 2^64, from a profiler that is enabled and has no statistics,
-- the statistics of each function that was measured summarise its measurements: their number, the sum of
-- their times and its quotient by the number, with every time and the average between the least and the
-- greatest.
pub record_all-IsSummary :
    (name : String) (ms : List Measurement) (p : Profiler)
    → p.enabled ≡ true
    → p.stats ≡ []
    → length ms < 2 ^ 64
    → 0 < length (times name ms)
    → let s = get_function_stat name (record_all ms p) in
      IsSummary s (times name ms) × (s.min_time ≤ s.avg_time) × (s.avg_time ≤ s.max_time)
unfolding get_function_stat lookup_or sum
record_all-IsSummary name ms p on empty h called =
    let start : IsSummary (get_function_stat name p) [] =
      rw empty (record { counted = refl; summed = refl; averaged = refl; bounded = tt }) in
    let i = record_all-from name ms p [] on start (omega (arith, h)) in
    let (lower, upper) =
      average-bounds (get_function_stat name (record_all ms p)) (times name ms) i called in
    (i, lower, upper)
