-- ===== src/Profiling.antt =====
-- `PerformanceProfiler` and `ProfileTimer` (src/profiling/performance_profiler.cpp). A time is a number
-- of microseconds of a clock that does not go back. The reports that are printed or written to a file
-- are left out. `sort` is `std::sort` by the number, the largest first.
use distributed_data_science.Prelude.{
  ℕ, zero, suc, ◌+◌, ◌-◌, ◌/◌, ◌%◌, ◌^◌, Bool, true, false, Option, none, some, String, List, [],
  ◌∷◌, ◌++◌, map, ltb, leb, ◌==◌, if◌then◌else◌, ◌=?◌, string_key, length, drop, take,
}
use distributed_data_science.Prelude.Words.{increment}
use distributed_data_science.Prelude.Maps.{lookup, lookup_or, insert}
pub mod Summaries

pub record Measurement : Type 0 where
  pub function_name : String
  pub start_time : ℕ
  pub end_time : ℕ
  pub duration : ℕ
  pub memory_used : ℕ
  pub thread_id : String

pub record Stats : Type 0 where
  pub function_name : String
  pub call_count : ℕ
  pub total_time : ℕ
  pub avg_time : ℕ
  pub min_time : ℕ
  pub max_time : ℕ
  pub total_memory : ℕ
  pub avg_memory : ℕ

pub record Profiler : Type 0 where
  pub measurements : List Measurement
  pub stats : List (String × Stats)
  pub enabled : Bool
  pub max_measurements : ℕ

-- `PerformanceStats{}`.
abbrev pub no_stats : Stats
no_stats = record {
  function_name = "";
  call_count = 0;
  total_time = 0;
  avg_time = 0;
  min_time = 0;
  max_time = 0;
  total_memory = 0;
  avg_memory = 0;
}

unfoldable pub least : ℕ → ℕ → ℕ
least a b = if ltb b a then b else a

unfoldable pub greatest : ℕ → ℕ → ℕ
greatest a b = if ltb a b then b else a

-- The first call of a function, or the one at which its number of calls has wrapped around.
unfoldable pub begin_stats : Measurement → Stats → Stats
begin_stats m stat =
    if stat.call_count == 0
    then record stat {
      function_name = m.function_name;
      min_time = m.duration;
      max_time = m.duration;
    }
    else stat

unfoldable pub add_measurement : Measurement → Stats → Stats
unfolding begin_stats increment least greatest
add_measurement m old =
    let stat = begin_stats m old in
    let calls = increment stat.call_count in
    let time = stat.total_time + m.duration in
    let memory = (stat.total_memory + m.memory_used) % 2 ^ 64 in
    record stat {
      call_count = calls;
      total_time = time;
      avg_time = time / calls;
      min_time = least stat.min_time m.duration;
      max_time = greatest stat.max_time m.duration;
      total_memory = memory;
      avg_memory = memory / calls;
    }

unfoldable pub update_stats : Measurement → List (String × Stats) → List (String × Stats)
unfolding add_measurement insert lookup_or
update_stats m stats =
    insert m.function_name (add_measurement m (lookup_or no_stats m.function_name stats)) stats

-- The last of a list.
unfoldable pub keep_last : ℕ → List Measurement → List Measurement
keep_last n ms = if ltb n (length ms) then drop (length ms - n) ms else ms

unfoldable pub record_measurement : Measurement → Profiler → Profiler
unfolding update_stats keep_last
record_measurement m p =
    if p.enabled
    then record p {
      measurements = keep_last p.max_measurements (p.measurements ++ m ∷ []);
      stats = update_stats m p.stats;
    }
    else p

-- What the destructor of a `ProfileTimer` does, at the time `now`.
unfoldable pub stop_timer : String → ℕ → ℕ → ℕ → String → Profiler → Profiler
unfolding record_measurement
stop_timer function_name start_time now memory thread p =
    if p.enabled
    then record_measurement
        (record {
          function_name = function_name;
          start_time = start_time;
          end_time = now;
          duration = now - start_time;
          memory_used = memory;
          thread_id = thread;
        })
        p
    else p

unfoldable pub get_function_stats : Profiler → List Stats
get_function_stats p = map (λ e. e.1) p.stats

unfoldable pub get_function_stat : String → Profiler → Stats
unfolding lookup_or
get_function_stat name p = lookup_or no_stats name p.stats

unfoldable pub get_recent_measurements : ℕ → Profiler → List Measurement
unfolding keep_last
get_recent_measurements count p = keep_last count p.measurements

module _ (sort : List (String × ℕ) → List (String × ℕ)) where
  unfoldable pub get_slowest_functions : ℕ → Profiler → List String
  get_slowest_functions count p =
      take count (map (λ e. e.0) (sort (map (λ e. (e.0, e.1.avg_time)) p.stats)))

  unfoldable pub get_most_called_functions : ℕ → Profiler → List String
  get_most_called_functions count p =
      take count (map (λ e. e.0) (sort (map (λ e. (e.0, e.1.call_count)) p.stats)))

unfoldable pub sum_times : List (String × Stats) → ℕ
sum_times [] = 0
sum_times ((name, stat) ∷ stats) = stat.total_time + sum_times stats

unfoldable pub clear_measurements : Profiler → Profiler
clear_measurements p = record p { measurements = []; stats = [] }
