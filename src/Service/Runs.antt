-- ===== src/Service/Runs.antt =====
-- Sequences of calls on a service, as the watchers of the store make them.
use yapr.Prelude.{
  ℕ, String, ◌≡◌, refl, true, false, Bool, List, [], ◌∷◌, arith, string_eq, if◌then◌else◌,
  Bool-cases, inl, inr, ==_iff, All,
}
use yapr.Prelude.Dict.{lookup, has, insert-IsMap, lookup-insert}
use yapr.Endpoint.{Endpoint, endpoint_eq}
use yapr.Types.{AttributeInSelector}
use yapr.Service.{
  Service, update, register_pod, remove_pod, hang_pod, set_attribute_in_selector, with_attribute,
  new_service, version,
}
use yapr.Service.Fields.{next_version, register_pod_lem, remove_pod_lem, hang_pod_lem}
use yapr.Service.Invariant.{
  IsValid, OwnEndpoints, register_pod-IsValid, remove_pod-IsValid, hang_pod-IsValid,
}

pub data Call : Type 0 where
  register : String → List Endpoint → Call
  remove : String → Call
  hang : String → Call
  set_attribute : Endpoint → String → AttributeInSelector → Call
  -- `Endpoints`, `EndpointsSet`, `Version` and `Attributes` write the same fields.
  read : Call

unfoldable pub step : Service → Call → Service
step s (register pod es) = register_pod s pod es
step s (remove pod) = remove_pod s pod
step s (hang pod) = hang_pod s pod
step s (set_attribute e selector attr) = set_attribute_in_selector s e selector attr
step s read = update s

unfoldable pub run : Service → List Call → Service
run s [] = s
run s (c ∷ cs) = run (step s c) cs

-- A pod registers endpoints of its own.
abbrev pub IsOwn : Call → Type 0
IsOwn (register pod es) = OwnEndpoints pod es
IsOwn _ = Unit

stamped-IsValid :
    (s : Service) (d : Bool) (n k : ℕ)
    → IsValid s
    → IsValid (record s { dirty = d; version = n; notified = k })
stamped-IsValid s d n k v = record {
  set_map = v.set_map;
  pod_map = v.pod_map;
  attr_is_map = v.attr_is_map;
  listed = v.listed;
  known = v.known;
  own = v.own;
  registered = v.registered;
}

update-IsValid : (s : Service) → IsValid s → IsValid (update s)
unfolding update
update-IsValid s v = elim (Bool-cases s.dirty) [
  | inl dirty ↦ simp dirty (stamped-IsValid s false _ _ v)
  | inr clean ↦ simp clean v
]

set_attribute-IsValid :
    (s : Service) (e : Endpoint) (selector : String) (attr : AttributeInSelector)
    → IsValid s
    → IsValid (set_attribute_in_selector s e selector attr)
unfolding set_attribute_in_selector
set_attribute-IsValid s e selector attr v =
    let new = with_attribute s e selector attr in
    elim (Bool-cases (has e s.endpoints_set)) [
      | inl is_known ↦ rw is_known (record {
        set_map = v.set_map;
        pod_map = v.pod_map;
        attr_is_map = insert-IsMap e _ _ v.attr_is_map;
        listed = v.listed;
        known = λ j h. ground (arith, v.known j, lookup-insert e j new s.attr_map, ==_iff e j);
        own = v.own;
        registered = λ q j h. ground (arith, v.registered q j, lookup-insert e j new s.attr_map);
      })
      | inr unknown ↦ rw unknown v
    ]

pub step-IsValid : (s : Service) (c : Call) → IsOwn c → IsValid s → IsValid (step s c)
unfolding step
step-IsValid s (register pod es) own v = register_pod-IsValid s v pod es own
step-IsValid s (remove pod) own v = remove_pod-IsValid s v pod
step-IsValid s (hang pod) own v = hang_pod-IsValid s v pod
step-IsValid s (set_attribute e selector attr) own v = set_attribute-IsValid s e selector attr v
step-IsValid s read own v = update-IsValid s v

run_from-IsValid : (s : Service) (cs : List Call) → All IsOwn cs → IsValid s → IsValid (run s cs)
unfolding run
run_from-IsValid s [] own v = v
run_from-IsValid s (c ∷ cs) own v = run_from-IsValid (step s c) cs own.1 (step-IsValid s c own.0 v)

pub new_service-IsValid : (name : String) → IsValid (new_service name)
unfolding lookup
new_service-IsValid name = record {
  set_map = tt;
  pod_map = tt;
  attr_is_map = tt;
  listed = λ e. refl;
  known = λ e h. cc;
  own = λ pod e h. cc;
  registered = λ pod e h. cc;
}

-- Start from a new service and let pods register endpoints of their own, leave, hang and report
-- attributes in any order. Then no map holds a key twice, the slice and the set hold the same
-- endpoints, every endpoint with attributes is in the set, and every endpoint that a pod has
-- registered last carries the pod's name and has attributes.
pub run-IsValid :
    (name : String) (cs : List Call) → All IsOwn cs → IsValid (run (new_service name) cs)
run-IsValid name cs own = run_from-IsValid (new_service name) cs own (new_service-IsValid name)

-- The calls that change what `Attributes` returns.
abbrev pub changes : Service → Call → Bool
changes s (set_attribute e selector attr) = has e s.endpoints_set
changes s read = false
changes s _ = true

-- What `Version` returns after a call is one more than the version before it, modulo 2^64, when the
-- call changes the endpoints or their attributes; after any other call it is what `Version` would
-- have returned before.
pub version-step :
    (s : Service) (c : Call)
    → (version (step s c)).1 ≡ (if changes s c then next_version s else (version s).1)
unfolding version step update set_attribute_in_selector
version-step s (register pod es) = rw (register_pod_lem s pod es)
version-step s (remove pod) = rw (remove_pod_lem s pod)
version-step s (hang pod) = rw (hang_pod_lem s pod)
version-step s (set_attribute e selector attr) = ground arith
version-step s read = ground arith
