-- ===== src/Tests/Monitors.antt =====
-- A monitor whose samples are whole numbers and whose handlers count the alerts.
use distributed_data_science.Prelude.{
  ℕ, ◌+◌, ◌≡◌, refl, Bool, true, String, [], ◌∷◌, ltb, string_key, length,
}
use distributed_data_science.Prelude.Maps.{lookup_or}
use distributed_data_science.Monitoring.{
  SystemMetrics, SystemMonitor, process_alerts, check_usage, check_limit,
}
use distributed_data_science.Monitoring.Alerts.{
  raise_all, expected_alerts, process_alerts-raise_all,
}
use distributed_data_science.Monitoring.History.{
  record_all, samples_of, last_1000, record_all-last_1000,
}

abbrev usage : SystemMetrics ℕ
usage = record {
  cpu_usage = 97;
  memory_usage = 88;
  disk_usage = 30;
  gpu_usage = 83;
  network_io = 15;
  disk_io = 8;
  active_jobs = 2;
  completed_jobs = 15;
  failed_jobs = 0;
  queue_size = 3;
  response_time_avg = 125;
  active_connections = 8;
  timestamp = 7;
}

abbrev monitor : SystemMonitor ℕ ℕ
monitor = record {
  alerts = [];
  alert_handlers = (λ alert n. n + 1) ∷ [];
  thresholds = record {
    cpu_warning = 80;
    cpu_critical = 95;
    memory_warning = 85;
    memory_critical = 95;
    disk_warning = 90;
    disk_critical = 98;
    gpu_warning = 85;
    gpu_critical = 95;
    response_time_warning = 1000;
    response_time_critical = 5000;
  };
  alerting_enabled = true;
  performance_history = [];
  system_healthy = true;
  last_health_check = 0;
  world = 0;
}

abbrev greater : ℕ → ℕ → Bool
greater x y = ltb y x

abbrev digits : ℕ → String
digits n = "n"

process_alerts-raise_all_example :
    process_alerts greater digits usage 7 monitor
    ≡ raise_all (expected_alerts greater digits usage monitor.thresholds 7) monitor
process_alerts-raise_all_example = process_alerts-raise_all greater digits usage 7 monitor

-- One alert for the processor and one for the memory, and two calls of the handler.
two_alerts :
    (length (process_alerts greater digits usage 7 monitor).alerts ≡ 2)
    × ((process_alerts greater digits usage 7 monitor).world ≡ 2)
unfolding process_alerts check_usage check_limit
two_alerts = (refl, refl)

record_all-last_1000_example :
    lookup_or [] "cpu"
      (record_all (("cpu", 25) ∷ ("disk", 30) ∷ ("cpu", 26) ∷ []) monitor).performance_history
    ≡ 25 ∷ 26 ∷ []
unfolding samples_of last_1000
record_all-last_1000_example =
    record_all-last_1000 "cpu" (("cpu", 25) ∷ ("disk", 30) ∷ ("cpu", 26) ∷ []) monitor refl
