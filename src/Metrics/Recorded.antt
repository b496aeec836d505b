-- ===== src/Metrics/Recorded.antt =====
-- What a process that records has told Prometheus.
use yapr.Prelude.{String, [], ◌∷◌, ◌++◌, none, some, ◌≡◌, refl, ap}
use yapr.Go.{Go, ok, panic, nil_dereference}
use yapr.Metrics.{
  request_total, add_pod_total, remove_pod_total, hang_pod_total, update_selector_cnt,
  request_duration, resolver_duration, selector_duration, Sample, counted, observed, recorder_impl,
  Metrics, record_by, record_sample, inc_request_total, inc_add_pod_total, inc_remove_pod_total,
  inc_hang_pod_total, observe_request_duration, observe_resolver_duration,
  observe_selector_duration, inc_update_selector_cnt,
}

-- A call of a function of the package.
pub data Call (D : Type 0) : Type 0 where
  request : String → String → Call D
  selector_updated : String → Call D
  pod_added pod_removed pod_hung : String → String → Call D
  request_took selector_took : String → D → Call D
  resolver_took : D → Call D

module _ {D : Type 0} where
  unfoldable pub perform : Metrics D → Call D → Go (Metrics D)
  perform m (request pod uri) = inc_request_total m pod uri
  perform m (selector_updated strategy) = inc_update_selector_cnt m strategy
  perform m (pod_added service pod) = inc_add_pod_total m service pod
  perform m (pod_removed service pod) = inc_remove_pod_total m service pod
  perform m (pod_hung service pod) = inc_hang_pod_total m service pod
  perform m (request_took target d) = observe_request_duration m target d
  perform m (selector_took strategy d) = observe_selector_duration m strategy d
  perform m (resolver_took d) = observe_resolver_duration m d

  -- the sample of a call: its vector, with the labels in the order of their names there
  abbrev pub sample_of : Call D → Sample D
  sample_of (request pod uri) = counted request_total (pod ∷ uri ∷ [])
  sample_of (selector_updated strategy) = counted update_selector_cnt (strategy ∷ [])
  sample_of (pod_added service pod) = counted add_pod_total (service ∷ pod ∷ [])
  sample_of (pod_removed service pod) = counted remove_pod_total (service ∷ pod ∷ [])
  sample_of (pod_hung service pod) = counted hang_pod_total (service ∷ pod ∷ [])
  sample_of (request_took target d) = observed request_duration (target ∷ []) d
  sample_of (selector_took strategy d) = observed selector_duration (strategy ∷ []) d
  sample_of (resolver_took d) = observed resolver_duration [] d

  by_record :
      (m : Metrics D) (s : Sample D)
      → m.recorder ≡ some recorder_impl
      → record_sample m s ≡ ok (record m { samples = m.samples ++ s ∷ [] })
  unfolding record_sample
  by_record m s set = ap (record_by m s) set

  -- Until `Init` has run, every function of the package panics.
  pub perform-unset :
      (m : Metrics D) (c : Call D) → m.recorder ≡ none → perform m c ≡ panic nil_dereference
  unfolding perform record_sample inc_request_total inc_add_pod_total inc_remove_pod_total
      inc_hang_pod_total observe_request_duration observe_resolver_duration
      observe_selector_duration inc_update_selector_cnt
  perform-unset m (request pod uri) unset = rw unset refl
  perform-unset m (selector_updated strategy) unset = rw unset refl
  perform-unset m (pod_added service pod) unset = rw unset refl
  perform-unset m (pod_removed service pod) unset = rw unset refl
  perform-unset m (pod_hung service pod) unset = rw unset refl
  perform-unset m (request_took target d) unset = rw unset refl
  perform-unset m (selector_took strategy d) unset = rw unset refl
  perform-unset m (resolver_took d) unset = rw unset refl

  -- A recorder that is no mock is told one sample for each call.
  pub perform-recorded :
      (m : Metrics D) (c : Call D)
      → m.recorder ≡ some recorder_impl
      → perform m c ≡ ok (record m { samples = m.samples ++ sample_of c ∷ [] })
  unfolding perform record_sample inc_request_total inc_add_pod_total inc_remove_pod_total
      inc_hang_pod_total observe_request_duration observe_resolver_duration
      observe_selector_duration inc_update_selector_cnt
  perform-recorded m (request pod uri) set = by_record m _ set
  perform-recorded m (selector_updated strategy) set = by_record m _ set
  perform-recorded m (pod_added service pod) set = by_record m _ set
  perform-recorded m (pod_removed service pod) set = by_record m _ set
  perform-recorded m (pod_hung service pod) set = by_record m _ set
  perform-recorded m (request_took target d) set = by_record m _ set
  perform-recorded m (selector_took strategy d) set = by_record m _ set
  perform-recorded m (resolver_took d) set = by_record m _ set
