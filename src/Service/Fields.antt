-- ===== src/Service/Fields.antt =====
-- Every field after a method of `Service`, with the loops gone.
use yapr.Prelude.{ℕ, ◌+◌, ◌%◌, ◌^◌, String, ◌≡◌, refl, false, List, [], ◌++◌, or_default, string_eq}
use yapr.Prelude.Dict.{lookup, insert, delete, keys, delete_all, insert_all}
use yapr.Endpoint.{Endpoint, endpoint_eq}
use yapr.Service.{Service, update, fresh_attributes, register_pod, remove_pod, hang_pod}
use yapr.Service.Loops.{
  forget_attributes_lem, add_endpoints_lem, drop_endpoints_lem, hang_endpoints_lem, hang_all,
}

-- The endpoints that the pod has registered last.
abbrev pub pod_endpoints : Service → String → List Endpoint
pod_endpoints s pod = or_default (lookup pod s.endpoints_by_pod) []

abbrev pub next_version : Service → ℕ
next_version s = (s.version + 1) % 2 ^ 64

module _ (s : Service) (pod : String) where
  pub register_pod_lem :
      (es : List Endpoint)
      → register_pod s pod es ≡ record s {
        endpoints = s.endpoints ++ es;
        endpoints_set = insert_all es tt s.endpoints_set;
        endpoints_by_pod = insert pod es s.endpoints_by_pod;
        attr_map = insert_all es fresh_attributes (delete_all (pod_endpoints s pod) s.attr_map);
        dirty = false;
        version = next_version s;
        notified = s.notified + 1;
      }
  unfolding register_pod update
  register_pod_lem es = rw (forget_attributes_lem, add_endpoints_lem) refl

  pub remove_pod_lem : remove_pod s pod ≡ record s {
    endpoints = keys (delete_all (pod_endpoints s pod) s.endpoints_set);
    endpoints_set = delete_all (pod_endpoints s pod) s.endpoints_set;
    endpoints_by_pod = delete pod s.endpoints_by_pod;
    attr_map = delete_all (pod_endpoints s pod) s.attr_map;
    dirty = false;
    version = next_version s;
    notified = s.notified + 1;
  }
  unfolding remove_pod update
  remove_pod_lem = rw drop_endpoints_lem refl

  pub hang_pod_lem : hang_pod s pod ≡ record s {
    attr_map = hang_all (pod_endpoints s pod) s.attr_map;
    dirty = false;
    version = next_version s;
    notified = s.notified + 1;
  }
  unfolding hang_pod update
  hang_pod_lem = rw hang_endpoints_lem refl
