-- ===== src/Monitoring.antt =====
-- `SystemMonitor` (src/monitoring/system_monitor.cpp): alerts, their handlers and the history of the
-- metrics. A handler acts on the state of the world, of any type; a sample is a `double`, of any
-- type with the operations that are used; `to_string` is `std::to_string`.
use distributed_data_science.Prelude.{
  ℕ, suc, ◌+◌, ◌-◌, Bool, true, false, not, Option, none, some, String, List, [], ◌∷◌, ◌++◌, ltb,
  min, ◌||◌, if◌then◌else◌, string_key, concat, length, get_elem?, set, drop, keep,
}
use distributed_data_science.Prelude.Maps.{lookup_or, insert}
pub mod Alerts
pub mod History

pub data AlertType : Type 0 where
  cpu_high memory_high disk_full gpu_high job_failed response_time_high connection_limit : AlertType
  system_error : AlertType

pub data AlertSeverity : Type 0 where
  low medium high critical : AlertSeverity

pub record Alert : Type 0 where
  pub kind : AlertType
  pub severity : AlertSeverity
  pub message : String
  pub details : String
  pub timestamp : ℕ
  pub acknowledged : Bool
  pub acknowledged_by : String

pub record SystemMetrics (Double : Type 0) : Type 0 where
  pub cpu_usage : Double
  pub memory_usage : Double
  pub disk_usage : Double
  pub gpu_usage : Double
  pub network_io : Double
  pub disk_io : Double
  pub active_jobs : ℕ
  pub completed_jobs : ℕ
  pub failed_jobs : ℕ
  pub queue_size : ℕ
  pub response_time_avg : Double
  pub active_connections : ℕ
  pub timestamp : ℕ

pub record PerformanceThreshold (Double : Type 0) : Type 0 where
  pub cpu_warning : Double
  pub cpu_critical : Double
  pub memory_warning : Double
  pub memory_critical : Double
  pub disk_warning : Double
  pub disk_critical : Double
  pub gpu_warning : Double
  pub gpu_critical : Double
  pub response_time_warning : Double
  pub response_time_critical : Double

pub record SystemMonitor (Double World : Type 0) : Type 0 where
  pub alerts : List Alert
  pub alert_handlers : List (Alert → World → World)
  pub thresholds : PerformanceThreshold Double
  pub alerting_enabled : Bool
  pub performance_history : List (String × List Double)
  pub system_healthy : Bool
  pub last_health_check : ℕ
  pub world : World

module _ {World : Type 0} where
  -- `send_alert_notifications`.
  unfoldable pub notify : List (Alert → World → World) → Alert → World → World
  notify [] alert world = world
  notify (handler ∷ handlers) alert world = notify handlers alert (handler alert world)

module _ {Double : Type 0} where
  -- One sample more, and no more than 1000.
  unfoldable pub push_sample : Double → List Double → List Double
  push_sample value history =
      let longer = history ++ value ∷ [] in
      if ltb 1000 (length longer) then drop 1 longer else longer

  -- The loop of `get_average_performance`.
  unfoldable pub sum_from : (Double → Double → Double) → Double → List Double → Double
  sum_from plus acc [] = acc
  sum_from plus acc (x ∷ xs) = sum_from plus (plus acc x) xs

module _ {Double World : Type 0} where
  unfoldable pub trigger_alert :
      AlertType
      → AlertSeverity
      → String
      → String
      → ℕ
      → SystemMonitor Double World
      → SystemMonitor Double World
  unfolding notify
  trigger_alert kind severity message details now m =
      let alert : Alert = record {
        kind = kind;
        severity = severity;
        message = message;
        details = details;
        timestamp = now;
        acknowledged = false;
        acknowledged_by = "";
      } in
      record m { alerts = m.alerts ++ alert ∷ []; world = notify m.alert_handlers alert m.world }

  unfoldable pub add_alert_handler :
      (Alert → World → World) → SystemMonitor Double World → SystemMonitor Double World
  add_alert_handler handler m = record m { alert_handlers = m.alert_handlers ++ handler ∷ [] }

  unfoldable pub get_active_alerts : SystemMonitor Double World → List Alert
  get_active_alerts m = keep (λ a. not a.acknowledged) m.alerts

  unfoldable pub acknowledge_alert :
      ℕ → String → SystemMonitor Double World → SystemMonitor Double World
  acknowledge_alert index user m = elim (get_elem? m.alerts index) [
    | none ↦ m
    | some a ↦ record m {
      alerts = set m.alerts index (record a { acknowledged = true; acknowledged_by = user });
    }
  ]

  unfoldable pub clear_acknowledged_alerts : SystemMonitor Double World → SystemMonitor Double World
  clear_acknowledged_alerts m = record m { alerts = keep (λ a. not a.acknowledged) m.alerts }

  unfoldable pub record_performance_metric :
      String → Double → SystemMonitor Double World → SystemMonitor Double World
  unfolding push_sample insert lookup_or
  record_performance_metric name value m = record m {
    performance_history =
        insert name (push_sample value (lookup_or [] name m.performance_history))
          m.performance_history;
  }

  module _ (zero_value : Double) (plus over : Double → Double → Double)
      (from_int : ℕ → Double) where
    -- With a `samples` that is not negative.
    unfoldable pub get_average_performance : String → ℕ → SystemMonitor Double World → Double
    unfolding lookup_or sum_from
    get_average_performance name samples m =
        let history = lookup_or [] name m.performance_history in
        let count = min samples (length history) in
        if ltb 0 (length history)
        then over (sum_from plus zero_value (drop (length history - count) history))
            (from_int count)
        else zero_value

  module _ (greater : Double → Double → Bool) (to_string : Double → String) where
    -- `if (usage > critical) ... else if (usage > warning) ...`
    unfoldable pub check_usage :
        AlertType
        → String
        → Double
        → Double
        → Double
        → ℕ
        → SystemMonitor Double World
        → SystemMonitor Double World
    unfolding trigger_alert
    check_usage kind name usage critical_at warning_at now m =
        let text = concat name (concat (to_string usage) "%") in
        if greater usage critical_at
        then trigger_alert kind critical (concat "Critical " text) "" now m
        else if greater usage warning_at
        then trigger_alert kind medium (concat "High " text) "" now m
        else m

    unfoldable pub check_limit :
        AlertType
        → AlertSeverity
        → String
        → Double
        → Double
        → ℕ
        → SystemMonitor Double World
        → SystemMonitor Double World
    unfolding trigger_alert
    check_limit kind severity message usage critical_at now m =
        if greater usage critical_at then trigger_alert kind severity message "" now m else m

    unfoldable pub process_alerts :
        SystemMetrics Double → ℕ → SystemMonitor Double World → SystemMonitor Double World
    process_alerts x now m =
        let t = m.thresholds in
        let cpu =
          check_usage cpu_high "CPU usage: " x.cpu_usage t.cpu_critical t.cpu_warning now m in
        let memory =
          check_usage memory_high "memory usage: " x.memory_usage t.memory_critical t.memory_warning
            now cpu in
        let disk =
          check_limit disk_full critical
            (concat "Critical disk usage: " (concat (to_string x.disk_usage) "%")) x.disk_usage
            t.disk_critical now memory in
        check_limit response_time_high high
          (concat "Critical response time: " (concat (to_string x.response_time_avg) "ms"))
          x.response_time_avg t.response_time_critical now disk

    -- What `get_current_metrics` does with the readings.
    unfoldable pub current_metrics :
        SystemMetrics Double → ℕ → SystemMonitor Double World → SystemMonitor Double World
    unfolding process_alerts
    current_metrics x now m = if m.alerting_enabled then process_alerts x now m else m

    unfoldable pub perform_health_check :
        SystemMetrics Double → ℕ → SystemMonitor Double World → SystemMonitor Double World
    unfolding trigger_alert current_metrics
    perform_health_check x now m =
        let t = m.thresholds in
        let ill =
          greater x.cpu_usage t.cpu_critical
          || greater x.memory_usage t.memory_critical
          || greater x.disk_usage t.disk_critical in
        let checked = record (current_metrics x now m) {
          system_healthy = not ill;
          last_health_check = now;
        } in
        if ill
        then trigger_alert system_error critical "System health check failed"
            "Critical resource usage detected" now checked
        else checked
