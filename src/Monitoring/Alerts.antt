-- ===== src/Monitoring/Alerts.antt =====
-- The alerts of a monitor (src/monitoring/system_monitor.cpp).
use distributed_data_science.Prelude.{
  ℕ, ◌≡◌, refl, sym, ap, ◌∙◌, Bool, false, not, String, List, [], ◌∷◌, ◌++◌, map, arith,
  if◌then◌else◌, concat, keep, inl, inr, Bool-cases,
}
use mathlib.Core.List.{append_assoc, append-nil}
use distributed_data_science.Monitoring.{
  AlertType, cpu_high, memory_high, disk_full, response_time_high, AlertSeverity, medium, high,
  critical, Alert, SystemMetrics, PerformanceThreshold, SystemMonitor, notify, trigger_alert,
  get_active_alerts, clear_acknowledged_alerts, check_usage, check_limit, process_alerts,
}

abbrev pub raised : AlertType → AlertSeverity → String → ℕ → Alert
raised kind severity message now = record {
  kind = kind;
  severity = severity;
  message = message;
  details = "";
  timestamp = now;
  acknowledged = false;
  acknowledged_by = "";
}

-- The calls of handlers that alerts lead to: one for each alert and each handler, the alerts in order
-- and for an alert the handlers in order; and what these calls make of the world.
unfoldable pub calls_of :
    {World : Type 0} → List (Alert → World → World) → List Alert → List (World → World)
calls_of handlers [] = []
calls_of handlers (a ∷ xs) = map (λ handler. handler a) handlers ++ calls_of handlers xs

unfoldable pub perform : {World : Type 0} → List (World → World) → World → World
perform [] world = world
perform (call ∷ calls) world = perform calls (call world)

abbrev active : List Alert → List Alert
active = keep (λ a. not a.acknowledged)

keep-keep : (xs : List Alert) → active (active xs) ≡ active xs
keep-keep [] = refl
keep-keep (x ∷ xs) = ground (arith, keep-keep xs)

keep-append : (xs ys : List Alert) → active (xs ++ ys) ≡ active xs ++ active ys
keep-append [] ys = refl
keep-append (x ∷ xs) ys = ground (arith, keep-append xs ys)

module _ {World : Type 0} where
  calls_of-append :
      (handlers : List (Alert → World → World)) (xs ys : List Alert)
      → calls_of handlers (xs ++ ys) ≡ calls_of handlers xs ++ calls_of handlers ys
  unfolding calls_of
  calls_of-append handlers [] ys = refl
  calls_of-append handlers (a ∷ xs) ys =
      ap (λ calls. map (λ handler. handler a) handlers ++ calls) (calls_of-append handlers xs ys)
      ∙ sym (
          append_assoc (map (λ handler. handler a) handlers) (calls_of handlers xs)
            (calls_of handlers ys))

  perform-append :
      (calls later : List (World → World)) (world : World)
      → perform (calls ++ later) world ≡ perform later (perform calls world)
  unfolding perform
  perform-append [] later world = refl
  perform-append (call ∷ calls) later world = perform-append calls later (call world)

  notify-perform :
      (handlers : List (Alert → World → World)) (a : Alert) (world : World)
      → notify handlers a world ≡ perform (calls_of handlers (a ∷ [])) world
  unfolding notify perform calls_of
  notify-perform [] a world = refl
  notify-perform (handler ∷ handlers) a world = notify-perform handlers a (handler a world)

module _ {Double : Type 0} (greater : Double → Double → Bool) (to_string : Double → String) where
  -- What a metric with two thresholds raises, and one with one threshold.
  unfoldable pub usage_alerts : AlertType → String → Double → Double → Double → ℕ → List Alert
  usage_alerts kind name usage critical_at warning_at now =
      let text = concat name (concat (to_string usage) "%") in
      if greater usage critical_at
      then raised kind critical (concat "Critical " text) now ∷ []
      else if greater usage warning_at
      then raised kind medium (concat "High " text) now ∷ []
      else []

  unfoldable pub limit_alerts :
      AlertType → AlertSeverity → String → Double → Double → ℕ → List Alert
  limit_alerts kind severity message usage critical_at now =
      if greater usage critical_at then raised kind severity message now ∷ [] else []

  unfoldable pub expected_alerts :
      SystemMetrics Double → PerformanceThreshold Double → ℕ → List Alert
  unfolding usage_alerts limit_alerts
  expected_alerts x t now =
      ((usage_alerts cpu_high "CPU usage: " x.cpu_usage t.cpu_critical t.cpu_warning now
          ++ usage_alerts memory_high "memory usage: " x.memory_usage t.memory_critical
              t.memory_warning now)
        ++ limit_alerts disk_full critical
            (concat "Critical disk usage: " (concat (to_string x.disk_usage) "%")) x.disk_usage
            t.disk_critical now)
      ++ limit_alerts response_time_high high
          (concat "Critical response time: " (concat (to_string x.response_time_avg) "ms"))
          x.response_time_avg t.response_time_critical now

module _ {Double World : Type 0} where
  -- What a monitor is after these alerts.
  unfoldable pub raise_all : List Alert → SystemMonitor Double World → SystemMonitor Double World
  unfolding perform calls_of
  raise_all xs m = record m {
    alerts = m.alerts ++ xs;
    world = perform (calls_of m.alert_handlers xs) m.world;
  }

  raise_all-raise_all :
      (xs ys : List Alert) (m : SystemMonitor Double World)
      → raise_all ys (raise_all xs m) ≡ raise_all (xs ++ ys) m
  unfolding raise_all
  raise_all-raise_all xs ys m =
      rw
        (
          append_assoc m.alerts xs ys,
          calls_of-append m.alert_handlers xs ys,
          perform-append (calls_of m.alert_handlers xs) (calls_of m.alert_handlers ys) m.world,
        )
        refl

  trigger_alert-raise_all :
      (kind : AlertType) (severity : AlertSeverity) (message : String) (now : ℕ)
      (m : SystemMonitor Double World)
      → trigger_alert kind severity message "" now m
        ≡ raise_all (raised kind severity message now ∷ []) m
  unfolding trigger_alert raise_all
  trigger_alert-raise_all kind severity message now m =
      let alert = raised kind severity message now in
      ap (λ w. record m { alerts = m.alerts ++ alert ∷ []; world = w })
        (notify-perform m.alert_handlers alert m.world)

  raise_all-nil : (m : SystemMonitor Double World) → raise_all [] m ≡ m
  unfolding raise_all perform calls_of
  raise_all-nil m = ap (λ zs. record m { alerts = zs }) (append-nil m.alerts)

  module _ (greater : Double → Double → Bool) (to_string : Double → String) where
    check_usage-raise_all :
        (kind : AlertType) (name : String) (u c w : Double) (now : ℕ)
        (m : SystemMonitor Double World)
        → check_usage greater to_string kind name u c w now m
          ≡ raise_all (usage_alerts greater to_string kind name u c w now) m
    unfolding check_usage usage_alerts
    check_usage-raise_all kind name u c w now m = elim (Bool-cases (greater u c)) [
      | inl worst ↦
          rw (worst, check_usage, usage_alerts)
            (trigger_alert-raise_all kind critical
              (concat "Critical " (concat name (concat (to_string u) "%"))) now m)
      | inr fine ↦ elim (Bool-cases (greater u w)) [
        | inl warns ↦
            rw (fine, warns, check_usage, usage_alerts)
              (trigger_alert-raise_all kind medium
                (concat "High " (concat name (concat (to_string u) "%"))) now m)
        | inr quiet ↦ rw (fine, quiet, check_usage, usage_alerts) (sym (raise_all-nil m))
      ]
    ]

    check_limit-raise_all :
        (kind : AlertType) (severity : AlertSeverity) (message : String) (u c : Double) (now : ℕ)
        (m : SystemMonitor Double World)
        → check_limit greater to_string kind severity message u c now m
          ≡ raise_all (limit_alerts greater to_string kind severity message u c now) m
    unfolding check_limit limit_alerts
    check_limit-raise_all kind severity message u c now m = elim (Bool-cases (greater u c)) [
      | inl over ↦
          rw (over, check_limit, limit_alerts) (trigger_alert-raise_all kind severity message now m)
      | inr below ↦ rw (below, check_limit, limit_alerts) (sym (raise_all-nil m))
    ]

    -- What `process_alerts` does with the metrics: for the processor and the memory a critical alert
    -- above the critical threshold and else a medium one above the warning threshold, for the disk and the
    -- response time one above the critical threshold; these alerts are added at the end, in this order, and
    -- for each of them every handler is called once, in the order of the handlers.
    pub process_alerts-raise_all :
        (x : SystemMetrics Double) (now : ℕ) (m : SystemMonitor Double World)
        → process_alerts greater to_string x now m
          ≡ raise_all (expected_alerts greater to_string x m.thresholds now) m
    unfolding process_alerts expected_alerts
    process_alerts-raise_all x now m =
        let t = m.thresholds in
        let a =
          usage_alerts greater to_string cpu_high "CPU usage: " x.cpu_usage t.cpu_critical
            t.cpu_warning now in
        let b =
          usage_alerts greater to_string memory_high "memory usage: " x.memory_usage
            t.memory_critical t.memory_warning now in
        let disk = concat "Critical disk usage: " (concat (to_string x.disk_usage) "%") in
        let c =
          limit_alerts greater to_string disk_full critical disk x.disk_usage t.disk_critical now in
        let response =
          concat "Critical response time: " (concat (to_string x.response_time_avg) "ms") in
        let d =
          limit_alerts greater to_string response_time_high high response x.response_time_avg
            t.response_time_critical now in
        let ma = raise_all a m in
        let mab = raise_all b ma in
        let mabc = raise_all c mab in
        let step_a =
          check_usage-raise_all cpu_high "CPU usage: " x.cpu_usage t.cpu_critical t.cpu_warning now
            m in
        let step_b =
          check_usage-raise_all memory_high "memory usage: " x.memory_usage t.memory_critical
            t.memory_warning now ma in
        let step_c =
          check_limit-raise_all disk_full critical disk x.disk_usage t.disk_critical now mab in
        let step_d =
          check_limit-raise_all response_time_high high response x.response_time_avg
            t.response_time_critical now mabc in
        let together =
          ap (λ n. raise_all d (raise_all c n)) (raise_all-raise_all a b m)
          ∙ ap (raise_all d) (raise_all-raise_all (a ++ b) c m)
          ∙ raise_all-raise_all ((a ++ b) ++ c) d m in
        let after_b = λ (n : SystemMonitor Double World).
          check_limit greater to_string response_time_high high response x.response_time_avg
            t.response_time_critical now
            (check_limit greater to_string disk_full critical disk x.disk_usage t.disk_critical now
              n) in
        ap
          (λ (n : SystemMonitor Double World). after_b (
            check_usage greater to_string memory_high "memory usage: " x.memory_usage
              t.memory_critical t.memory_warning now n))
          step_a
        ∙ ap after_b step_b
        ∙ ap
            (check_limit greater to_string response_time_high high response x.response_time_avg
              t.response_time_critical now)
            step_c
        ∙ step_d
        ∙ together

  -- Clearing the acknowledged alerts leaves the active ones, and a new alert is active.
  pub get_active_alerts-clear :
      (kind : AlertType) (severity : AlertSeverity) (message : String) (now : ℕ)
      (m : SystemMonitor Double World)
      → (get_active_alerts (clear_acknowledged_alerts m) ≡ get_active_alerts m)
        × (get_active_alerts (trigger_alert kind severity message "" now m)
            ≡ get_active_alerts m ++ raised kind severity message now ∷ [])
  unfolding get_active_alerts clear_acknowledged_alerts trigger_alert
  get_active_alerts-clear kind severity message now m =
      (keep-keep m.alerts, keep-append m.alerts (raised kind severity message now ∷ []))
