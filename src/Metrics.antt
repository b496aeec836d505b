-- ===== src/Metrics.antt =====
-- pkg/yapr/metrics/metrics.go: the recorder of the process. What the recorder tells the vectors of
-- Prometheus is a list of samples; a duration is a value of a type `D`.
pub mod Recorded
use yapr.Prelude.{String, Bool, true, false, List, [], ◌∷◌, ◌++◌, Option, none, some, if◌then◌else◌}
use yapr.Go.{Go, ok, panic, nil_dereference}

-- the vectors of `MetricsRecorderImpl`
pub data Vector : Type 0 where
  request_total add_pod_total remove_pod_total hang_pod_total update_selector_cnt : Vector
  request_duration resolver_duration selector_duration : Vector

-- `WithLabelValues(...).Inc()` and `WithLabelValues(...).Observe(d)`
pub data Sample (D : Type 0) : Type 0 where
  counted : Vector → List String → Sample D
  observed : Vector → List String → D → Sample D

pub data MetricsRecorder : Type 0 where
  recorder_impl recorder_mock : MetricsRecorder

-- `recorder`, nil until `Init`, and the samples so far.
pub record Metrics (D : Type 0) : Type 0 where
  pub recorder : Option MetricsRecorder
  pub samples : List (Sample D)

module _ {D : Type 0} where
  -- The part of `Init` before it serves.
  unfoldable pub init : Metrics D → Bool → Metrics D
  init m mock = record m { recorder = some (if mock then recorder_mock else recorder_impl) }

  abbrev pub record_by : Metrics D → Sample D → Option MetricsRecorder → Go (Metrics D)
  record_by m s none = panic nil_dereference
  record_by m s (some recorder_mock) = ok m
  record_by m s (some recorder_impl) = ok (record m { samples = m.samples ++ s ∷ [] })

  -- a method of the recorder
  unfoldable pub record_sample : Metrics D → Sample D → Go (Metrics D)
  record_sample m s = record_by m s m.recorder

  unfoldable pub inc_request_total : Metrics D → String → String → Go (Metrics D)
  inc_request_total m pod uri = record_sample m (counted request_total (pod ∷ uri ∷ []))

  unfoldable pub inc_add_pod_total : Metrics D → String → String → Go (Metrics D)
  inc_add_pod_total m service pod = record_sample m (counted add_pod_total (service ∷ pod ∷ []))

  unfoldable pub inc_remove_pod_total : Metrics D → String → String → Go (Metrics D)
  inc_remove_pod_total m service pod =
      record_sample m (counted remove_pod_total (service ∷ pod ∷ []))

  unfoldable pub inc_hang_pod_total : Metrics D → String → String → Go (Metrics D)
  inc_hang_pod_total m service pod = record_sample m (counted hang_pod_total (service ∷ pod ∷ []))

  unfoldable pub observe_request_duration : Metrics D → String → D → Go (Metrics D)
  observe_request_duration m target duration =
      record_sample m (observed request_duration (target ∷ []) duration)

  unfoldable pub observe_resolver_duration : Metrics D → D → Go (Metrics D)
  observe_resolver_duration m duration = record_sample m (observed resolver_duration [] duration)

  unfoldable pub observe_selector_duration : Metrics D → String → D → Go (Metrics D)
  observe_selector_duration m strategy duration =
      record_sample m (observed selector_duration (strategy ∷ []) duration)

  unfoldable pub inc_update_selector_cnt : Metrics D → String → Go (Metrics D)
  inc_update_selector_cnt m strategy = record_sample m (counted update_selector_cnt (strategy ∷ []))
