-- ===== src/Tests/Services.antt =====
-- Runs of a service, and endpoints in print.
use yapr.Prelude.{
  String, true, false, List, [], ◌∷◌, ◌≡◌, refl, arith, contains, ==_iff, string_eq, not, ◌&&◌,
}
use yapr.Prelude.Dict.{lookup, insert}
use yapr.Endpoint.{Endpoint, endpoint_eq}
use yapr.Errcode.{Result, success}
use yapr.Types.{Router, new_default_attr}
use yapr.Service.{
  Service, new_service, register_pod, remove_pod, hang_pod, set_attribute_in_selector, update,
  add_endpoints, forget_attributes,
}
use yapr.Service.Fields.{pod_endpoints}
use yapr.Service.Invariant.{IsValid, OwnEndpoints}
use yapr.Service.Runs.{Call, register, set_attribute, step, run, run-IsValid}
use yapr.Service.Effects.{lists, available, remove_pod_effect, hang_pod_effect, stale_endpoint}
use yapr.Tests.{alpha, beta}

single_own : (d : Endpoint) → OwnEndpoints d.pod (d ∷ [])
single_own d e h = ground (arith, ==_iff d e)

own_alpha : OwnEndpoints "pod-a" (alpha ∷ [])
own_alpha = single_own alpha

own_beta : OwnEndpoints "pod-b" (beta ∷ [])
own_beta = single_own beta

abbrev history : List Call
history =
    register "pod-a" (alpha ∷ [])
    ∷ register "pod-b" (beta ∷ [])
    ∷ set_attribute alpha "s" new_default_attr
    ∷ []

run-IsValid_example : IsValid (run (new_service "echo") history)
run-IsValid_example = run-IsValid "echo" history (own_alpha, (own_beta, (tt, tt)))

abbrev serving : Service
serving = run (new_service "echo") history

hang_pod_effect_example :
    (lists (hang_pod serving "pod-a") alpha ≡ lists serving alpha)
    × (available (hang_pod serving "pod-a") alpha
        ≡ (available serving alpha && not (contains alpha (pod_endpoints serving "pod-a"))))
hang_pod_effect_example = hang_pod_effect serving "pod-a" alpha

remove_pod_effect_example :
    (lists (remove_pod serving "pod-a") alpha
      ≡ (lists serving alpha && not (contains alpha (pod_endpoints serving "pod-a"))))
    × (available (remove_pod serving "pod-a") alpha
        ≡ (available serving alpha && not (contains alpha (pod_endpoints serving "pod-a"))))
remove_pod_effect_example = remove_pod_effect serving "pod-a" alpha run-IsValid_example

own_none : OwnEndpoints "pod-a" []
own_none e h = absurd (ground arith)

stale_endpoint_example :
    (lists (remove_pod (register_pod serving "pod-a" []) "pod-a") alpha ≡ true)
    × (available (remove_pod (register_pod serving "pod-a" []) "pod-a") alpha ≡ false)
unfolding run step lookup set_attribute_in_selector register_pod update add_endpoints insert
    forget_attributes
stale_endpoint_example =
    stale_endpoint serving "pod-a" alpha [] run-IsValid_example own_none refl refl

abbrev echo_router : Router
echo_router = record { name = "echo"; rules = [] }

abbrev stored : String → Result Router
stored name = success echo_router
