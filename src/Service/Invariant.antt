-- ===== src/Service/Invariant.antt =====
-- The fields of a service agree with one another after any calls.
use yapr.Prelude.{
  String, ◌≡◌, refl, true, List, [], ◌∷◌, ◌++◌, arith, string_eq, contains, ==_iff, ◌||◌,
}
use yapr.Prelude.Dict.{
  has, delete_all, IsMap, insert-IsMap, delete-IsMap, delete_all-IsMap, insert_all-IsMap,
  lookup-insert, lookup-delete, lookup-delete_all, lookup-insert_all, contains-keys,
}
use yapr.Endpoint.{Endpoint, endpoint_eq}
use yapr.Service.{Service, fresh_attributes, register_pod, remove_pod, hang_pod}
use yapr.Service.Loops.{lookup-hang_all, hang_all-IsMap}
use yapr.Service.Fields.{pod_endpoints, register_pod_lem, remove_pod_lem, hang_pod_lem}

pub record IsValid (s : Service) : Type 0 where
  pub set_map : IsMap s.endpoints_set
  pub pod_map : IsMap s.endpoints_by_pod
  pub attr_is_map : IsMap s.attr_map
  -- the slice and the set hold the same endpoints
  pub listed : (e : Endpoint) → contains e s.endpoints ≡ has e s.endpoints_set
  -- attributes are kept for known endpoints only
  pub known : (e : Endpoint) → has e s.attr_map ≡ true → has e s.endpoints_set ≡ true
  -- an endpoint stands under its own pod, and has attributes
  pub own : (pod : String) (e : Endpoint) → contains e (pod_endpoints s pod) ≡ true → e.pod ≡ pod
  pub registered :
      (pod : String) (e : Endpoint)
      → contains e (pod_endpoints s pod) ≡ true
      → has e s.attr_map ≡ true

-- A pod registers endpoints of its own, as the SDK constructs them.
abbrev pub OwnEndpoints : String → List Endpoint → Type 0
OwnEndpoints pod es = (e : Endpoint) → contains e es ≡ true → e.pod ≡ pod

pub contains-append :
    (e : Endpoint) (xs ys : List Endpoint)
    → contains e (xs ++ ys) ≡ (contains e xs || contains e ys)
contains-append e [] ys = refl
contains-append e (x ∷ xs) ys = ground (arith, contains-append e xs ys)

module _ (s : Service) (v : IsValid s) (pod : String) where
  pub register_pod-IsValid :
      (es : List Endpoint) → OwnEndpoints pod es → IsValid (register_pod s pod es)
  register_pod-IsValid es mine = rw register_pod_lem (record {
    set_map = insert_all-IsMap es tt _ v.set_map;
    pod_map = insert-IsMap pod es _ v.pod_map;
    attr_is_map = insert_all-IsMap es _ _ (delete_all-IsMap (pod_endpoints s pod) _ v.attr_is_map);
    listed = λ e. ground (
      arith,
      contains-append e s.endpoints es,
      v.listed e,
      lookup-insert_all e es tt s.endpoints_set,
    );
    known = λ e h. ground (
      arith,
      v.known e,
      lookup-insert_all e es tt s.endpoints_set,
      lookup-insert_all e es fresh_attributes (delete_all (pod_endpoints s pod) s.attr_map),
      lookup-delete_all e (pod_endpoints s pod) s.attr_map,
    );
    own = λ q e h.
        ground (arith, v.own q e, mine e, lookup-insert pod q es s.endpoints_by_pod, ==_iff pod q);
    registered = λ q e h. ground (
      arith,
      v.own pod e,
      v.own q e,
      v.registered q e,
      lookup-insert pod q es s.endpoints_by_pod,
      ==_iff pod q,
      lookup-insert_all e es fresh_attributes (delete_all (pod_endpoints s pod) s.attr_map),
      lookup-delete_all e (pod_endpoints s pod) s.attr_map,
    );
  })

  pub remove_pod-IsValid : IsValid (remove_pod s pod)
  remove_pod-IsValid = rw remove_pod_lem (record {
    set_map = delete_all-IsMap (pod_endpoints s pod) _ v.set_map;
    pod_map = delete-IsMap pod _ v.pod_map;
    attr_is_map = delete_all-IsMap (pod_endpoints s pod) _ v.attr_is_map;
    listed = λ e. contains-keys e _;
    known = λ e h. ground (
      arith,
      v.known e,
      lookup-delete_all e (pod_endpoints s pod) s.endpoints_set,
      lookup-delete_all e (pod_endpoints s pod) s.attr_map,
    );
    own = λ q e h. ground (arith, v.own q e, lookup-delete pod q s.endpoints_by_pod);
    registered = λ q e h. ground (
      arith,
      v.own pod e,
      v.own q e,
      v.registered q e,
      lookup-delete pod q s.endpoints_by_pod,
      ==_iff pod q,
      lookup-delete_all e (pod_endpoints s pod) s.attr_map,
    );
  })

  pub hang_pod-IsValid : IsValid (hang_pod s pod)
  hang_pod-IsValid = rw hang_pod_lem (record {
    set_map = v.set_map;
    pod_map = v.pod_map;
    attr_is_map = hang_all-IsMap (pod_endpoints s pod) _ v.attr_is_map;
    listed = v.listed;
    known = λ e h. ground (arith, v.known e, lookup-hang_all e (pod_endpoints s pod) s.attr_map);
    own = v.own;
    registered = λ q e h.
        ground (arith, v.registered q e, lookup-hang_all e (pod_endpoints s pod) s.attr_map);
  })
