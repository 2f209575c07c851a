-- ===== src/Tests/Profiles.antt =====
-- Runs of the theorems on measurements.
use distributed_data_science.Prelude.{
  ℕ, ◌+◌, true, ◌≤◌, refl, String, List, [], ◌∷◌, string_key, arith,
}
use distributed_data_science.Profiling.{Measurement, Profiler, get_function_stat}
use distributed_data_science.Profiling.Summaries.{times, record_all, record_all-IsSummary}

abbrev call : String → ℕ → Measurement
call name d = record {
  function_name = name;
  start_time = 5;
  end_time = 5 + d;
  duration = d;
  memory_used = 64;
  thread_id = "t";
}

abbrev profiler : Profiler
profiler = record { measurements = []; stats = []; enabled = true; max_measurements = 2 }

abbrev measured : List Measurement
measured = call "f" 4 ∷ call "g" 9 ∷ call "f" 7 ∷ []

record_all-IsSummary_example :
    (get_function_stat "f" (record_all measured profiler)).avg_time
    ≤ (get_function_stat "f" (record_all measured profiler)).max_time
unfolding times
record_all-IsSummary_example =
    (record_all-IsSummary "f" measured profiler refl refl (omega arith) (omega arith)).2
