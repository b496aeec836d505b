-- ===== src/Service.antt =====
-- pkg/yapr/core/types/service.go: the endpoints that a service's pods have registered, and their
-- attributes. The mutex makes each method one step; the proofs are in the children.
pub mod Loops
pub mod Fields
pub mod Invariant
pub mod Runs
pub mod Effects
use yapr.Prelude.{
  ℕ, ◌+◌, ◌%◌, ◌^◌, String, Bool, true, false, List, [], ◌∷◌, ◌++◌, Option, none, some, map,
  or_default, string_eq, if◌then◌else◌,
}
use yapr.Prelude.Dict.{Dict, lookup, insert, delete, has, keys}
use yapr.Endpoint.{Endpoint, endpoint_eq}
use yapr.Types.{Attributes, Attribute, AttributeInSelector, new_default_attr}

pub record Service : Type 0 where
  pub name : String
  pub endpoints : List Endpoint
  pub endpoints_set : Dict Endpoint (Unit {0})
  pub endpoints_by_pod : Dict String (List Endpoint)
  pub attr_map : Dict Endpoint Attributes
  pub dirty : Bool
  pub version : ℕ
  -- how many of the channels `UpdateNTF` have been closed
  pub notified : ℕ

abbrev pub new_service : String → Service
new_service name = record {
  name = name;
  endpoints = [];
  endpoints_set = [];
  endpoints_by_pod = [];
  attr_map = [];
  dirty = false;
  version = 0;
  notified = 0;
}

-- `version` is a uint64.
unfoldable pub update : Service → Service
update s =
    if s.dirty
    then record s { dirty = false; version = (s.version + 1) % 2 ^ 64; notified = s.notified + 1 }
    else s

-- `CommonAttribute{Available: true}` and an empty map
abbrev pub fresh_attributes : Attributes
fresh_attributes = record { common = record { available = true }; in_selector = [] }

abbrev pub attribute_in : String → Option Attributes → Option Attribute
attribute_in selector none = none
attribute_in selector (some m) =
    some (record { common = m.common; in_selector = lookup selector m.in_selector })

unfoldable pub get_attribute : Service → Endpoint → String → Option Attribute
get_attribute s endpoint selector = attribute_in selector (lookup endpoint s.attr_map)

unfoldable pub endpoints : Service → Service × List Endpoint
endpoints s = let s' = update s in (s', s'.endpoints)

unfoldable pub endpoints_set : Service → Service × Dict Endpoint (Unit {0})
endpoints_set s = let s' = update s in (s', s'.endpoints_set)

unfoldable pub version : Service → Service × ℕ
version s = let s' = update s in (s', s'.version)

-- One round of the loop of `Attributes`.
unfoldable pub attribute_of : Dict Endpoint Attributes → String → Endpoint → Attribute
attribute_of attr_map selector a = elim (lookup a attr_map) [
  | none ↦ record { common = record { available = false }; in_selector = some new_default_attr }
  | some attr ↦ record {
    common = attr.common;
    in_selector = some (or_default (lookup selector attr.in_selector) new_default_attr);
  }
]

-- The service after the call, and the two slices.
unfoldable pub attributes : Service → String → Service × (List Endpoint × List Attribute)
attributes s selector =
    let s' = update s in (s', (s'.endpoints, map (attribute_of s'.attr_map selector) s'.endpoints))

-- `m.InSelector[selector] = attr`, in what the map has or in new attributes
abbrev pub with_attribute : Service → Endpoint → String → AttributeInSelector → Attributes
with_attribute s endpoint selector attr =
    let m = or_default (lookup endpoint s.attr_map) fresh_attributes in
    record m { in_selector = insert selector attr m.in_selector }

unfoldable pub set_attribute_in_selector :
    Service → Endpoint → String → AttributeInSelector → Service
set_attribute_in_selector s endpoint selector attr =
    if has endpoint s.endpoints_set
    then record s {
      attr_map = insert endpoint (with_attribute s endpoint selector attr) s.attr_map;
      dirty = true;
    }
    else s

-- The loop of `RegisterPod` over the pod's former endpoints.
unfoldable pub forget_attributes : List Endpoint → Service → Service
forget_attributes [] s = s
forget_attributes (e ∷ es) s = forget_attributes es (record s { attr_map = delete e s.attr_map })

-- The loop of `RegisterPod` over the new endpoints.
unfoldable pub add_endpoints : List Endpoint → Service → Service
add_endpoints [] s = s
add_endpoints (e ∷ es) s = add_endpoints es (record s {
  attr_map = insert e fresh_attributes s.attr_map;
  endpoints_set = insert e tt s.endpoints_set;
  endpoints = s.endpoints ++ e ∷ [];
})

unfoldable pub register_pod : Service → String → List Endpoint → Service
register_pod s pod endpoints =
    let s₁ = forget_attributes (or_default (lookup pod s.endpoints_by_pod) []) s in
    let s₂ = add_endpoints endpoints s₁ in
    update (record s₂ { endpoints_by_pod = insert pod endpoints s₂.endpoints_by_pod; dirty = true })

-- The loop of `RemovePod`.
unfoldable pub drop_endpoints : List Endpoint → Service → Service
drop_endpoints [] s = s
drop_endpoints (e ∷ es) s =
    drop_endpoints es
      (record s { attr_map = delete e s.attr_map; endpoints_set = delete e s.endpoints_set })

unfoldable pub remove_pod : Service → String → Service
remove_pod s pod =
    let s₁ = drop_endpoints (or_default (lookup pod s.endpoints_by_pod) []) s in
    update (record s₁ {
      endpoints = keys s₁.endpoints_set;
      endpoints_by_pod = delete pod s₁.endpoints_by_pod;
      dirty = true;
    })

-- `attr.Available = false`, where the endpoint has attributes.
unfoldable pub hang_endpoint : Endpoint → Dict Endpoint Attributes → Dict Endpoint Attributes
hang_endpoint e m = elim (lookup e m) [
  | none ↦ m
  | some attr ↦ insert e (record attr { common = record { available = false } }) m
]

-- The loop of `HangPod`.
unfoldable pub hang_endpoints : List Endpoint → Service → Service
hang_endpoints [] s = s
hang_endpoints (e ∷ es) s = hang_endpoints es (record s { attr_map = hang_endpoint e s.attr_map })

unfoldable pub hang_pod : Service → String → Service
hang_pod s pod =
    update
      (record (hang_endpoints (or_default (lookup pod s.endpoints_by_pod) []) s) { dirty = true })
