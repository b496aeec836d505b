-- ===== src/Service/Effects.antt =====
-- What a selector sees of a service after a pod registers, hangs or leaves.
use yapr.Prelude.{
  String, ◌≡◌, refl, ◌∙◌, true, false, Bool, List, arith, string_eq, contains, ==_refl, not, ◌&&◌,
  ◌||◌,
}
use yapr.Prelude.Dict.{
  lookup-insert, delete_all, lookup-delete_all, lookup-insert_all, contains-keys,
}
use yapr.Endpoint.{Endpoint, endpoint_eq}
use yapr.Service.{Service, fresh_attributes, register_pod, remove_pod, hang_pod, attribute_of}
use yapr.Service.Fields.{pod_endpoints, register_pod_lem, remove_pod_lem, hang_pod_lem}
use yapr.Service.Loops.{lookup-hang_all}
use yapr.Service.Invariant.{IsValid, OwnEndpoints, contains-append, register_pod-IsValid}

abbrev pub lists : Service → Endpoint → Bool
lists s e = contains e s.endpoints

-- What `Attributes` reports as `Available`, for any selector.
abbrev pub available : Service → Endpoint → Bool
available s e = (attribute_of s.attr_map "" e).common.available

module _ (s : Service) (pod : String) (e : Endpoint) where
  -- After `RegisterPod` the endpoints of the call are listed and available. Of the others, all stay
  -- listed, and the pod's former ones are no longer available.
  pub register_pod_effect :
      (es : List Endpoint)
      → (lists (register_pod s pod es) e ≡ (lists s e || contains e es))
        × (available (register_pod s pod es) e
            ≡ (contains e es || (available s e && not (contains e (pod_endpoints s pod)))))
  unfolding attribute_of
  register_pod_effect es = rw register_pod_lem (
    contains-append e s.endpoints es,
    ground (
      arith,
      lookup-insert_all e es fresh_attributes (delete_all (pod_endpoints s pod) s.attr_map),
      lookup-delete_all e (pod_endpoints s pod) s.attr_map,
    ),
  )

  -- After `HangPod` the pod's endpoints are still listed and not available; the others are as before.
  pub hang_pod_effect :
      (lists (hang_pod s pod) e ≡ lists s e)
      × (available (hang_pod s pod) e ≡ (available s e && not (contains e (pod_endpoints s pod))))
  unfolding attribute_of
  hang_pod_effect =
      rw hang_pod_lem (refl, ground (arith, lookup-hang_all e (pod_endpoints s pod) s.attr_map))

  -- After `RemovePod` the endpoints that the pod registered last are neither listed nor available;
  -- the others are as before.
  pub remove_pod_effect :
      IsValid s
      → (lists (remove_pod s pod) e ≡ (lists s e && not (contains e (pod_endpoints s pod))))
        × (available (remove_pod s pod) e
            ≡ (available s e && not (contains e (pod_endpoints s pod))))
  unfolding attribute_of
  remove_pod_effect v = rw remove_pod_lem (
    ground (
      arith,
      contains-keys e (delete_all (pod_endpoints s pod) s.endpoints_set),
      lookup-delete_all e (pod_endpoints s pod) s.endpoints_set,
      v.listed e,
    ),
    ground (arith, lookup-delete_all e (pod_endpoints s pod) s.attr_map),
  )

pod_endpoints-register_pod :
    (s : Service) (pod : String) (es : List Endpoint)
    → pod_endpoints (register_pod s pod es) pod ≡ es
pod_endpoints-register_pod s pod es =
    rw register_pod_lem (ground (arith, lookup-insert pod pod es s.endpoints_by_pod, ==_refl pod))

-- When a pod of a valid service registers again, with endpoints of its own, an endpoint of its that
-- it leaves out stays listed, also after the pod is removed. It is not available.
pub stale_endpoint :
    (s : Service) (pod : String) (e : Endpoint) (es : List Endpoint)
    → IsValid s
    → OwnEndpoints pod es
    → contains e (pod_endpoints s pod) ≡ true
    → contains e es ≡ false
    → (lists (remove_pod (register_pod s pod es) pod) e ≡ true)
      × (available (remove_pod (register_pod s pod es) pod) e ≡ false)
stale_endpoint s pod e es v mine former gone =
    let s' = register_pod s pod es in
    let (still, unavailable) = register_pod_effect s pod e es in
    let (kept, never) = remove_pod_effect s' pod e (register_pod-IsValid s v pod es mine) in
    let same = pod_endpoints-register_pod s pod es in
    let listed = v.listed e in
    let set = v.known e (v.registered pod e former) in
    (
      kept ∙ rw same (rw (still, gone, listed, set)),
      never ∙ rw same (rw (unavailable, gone, former) (ground arith)),
    )
