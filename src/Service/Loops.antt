-- ===== src/Service/Loops.antt =====
-- What the loops of `RegisterPod`, `RemovePod` and `HangPod` leave in the service.
use mathlib.Core.List.{append-nil, append_assoc}
use yapr.Prelude.{
  ◌≡◌, refl, sym, ◌∙◌, ap, false, List, [], ◌∷◌, ◌++◌, Option, none, some, arith, contains, ◌==◌,
  ==_iff, if◌then◌else◌, Option-cases, inl, inr,
}
use yapr.Prelude.Dict.{
  Dict, IsMap, lookup, insert, delete, lookup-insert, delete_all, insert_all, insert-IsMap,
}
use yapr.Endpoint.{Endpoint, endpoint_eq}
use yapr.Types.{Attributes}
use yapr.Service.{
  Service, fresh_attributes, forget_attributes, add_endpoints, drop_endpoints, hang_endpoint,
  hang_endpoints,
}

pub forget_attributes_lem :
    (es : List Endpoint) (s : Service)
    → forget_attributes es s ≡ record s { attr_map = delete_all es s.attr_map }
unfolding forget_attributes delete_all
forget_attributes_lem [] s = refl
forget_attributes_lem (e ∷ es) s =
    forget_attributes_lem es (record s { attr_map = delete e s.attr_map })

pub add_endpoints_lem :
    (es : List Endpoint) (s : Service)
    → add_endpoints es s ≡ record s {
      attr_map = insert_all es fresh_attributes s.attr_map;
      endpoints_set = insert_all es tt s.endpoints_set;
      endpoints = s.endpoints ++ es;
    }
unfolding add_endpoints insert_all
add_endpoints_lem [] s = ap (λ l. record s { endpoints = l }) (sym (append-nil s.endpoints))
add_endpoints_lem (e ∷ es) s =
    let s' = record s {
      attr_map = insert e fresh_attributes s.attr_map;
      endpoints_set = insert e tt s.endpoints_set;
      endpoints = s.endpoints ++ e ∷ [];
    } in
    add_endpoints_lem es s'
    ∙ ap
        (λ l. record s' {
          attr_map = insert_all es fresh_attributes s'.attr_map;
          endpoints_set = insert_all es tt s'.endpoints_set;
          endpoints = l;
        })
        (append_assoc s.endpoints (e ∷ []) es)

pub drop_endpoints_lem :
    (es : List Endpoint) (s : Service)
    → drop_endpoints es s ≡ record s {
      attr_map = delete_all es s.attr_map;
      endpoints_set = delete_all es s.endpoints_set;
    }
unfolding drop_endpoints delete_all
drop_endpoints_lem [] s = refl
drop_endpoints_lem (e ∷ es) s =
    drop_endpoints_lem es
      (record s { attr_map = delete e s.attr_map; endpoints_set = delete e s.endpoints_set })

-- What `HangPod` makes of an endpoint's attributes.
abbrev pub hung : Option Attributes → Option Attributes
hung none = none
hung (some a) = some (record a { common = record { available = false } })

unfoldable pub hang_all : List Endpoint → Dict Endpoint Attributes → Dict Endpoint Attributes
hang_all [] m = m
hang_all (e ∷ es) m = hang_all es (hang_endpoint e m)

pub hang_endpoints_lem :
    (es : List Endpoint) (s : Service)
    → hang_endpoints es s ≡ record s { attr_map = hang_all es s.attr_map }
unfolding hang_endpoints hang_all
hang_endpoints_lem [] s = refl
hang_endpoints_lem (e ∷ es) s =
    hang_endpoints_lem es (record s { attr_map = hang_endpoint e s.attr_map })

lookup-hang_endpoint :
    (e j : Endpoint) (m : Dict Endpoint Attributes)
    → lookup j (hang_endpoint e m) ≡ (if e == j then hung (lookup j m) else lookup j m)
unfolding hang_endpoint
lookup-hang_endpoint e j m = elim (Option-cases (lookup e m)) [
  | inl missing ↦ rw (missing, hang_endpoint) (ground (arith, missing, ==_iff e j))
  | inr (a, found) ↦
      rw (found, hang_endpoint)
        (ground (
          arith,
          found,
          lookup-insert e j (record a { common = record { available = false } }) m,
          ==_iff e j,
        ))
]

pub lookup-hang_all :
    (j : Endpoint) (es : List Endpoint) (m : Dict Endpoint Attributes)
    → lookup j (hang_all es m) ≡ (if contains j es then hung (lookup j m) else lookup j m)
unfolding hang_all
lookup-hang_all j [] m = refl
lookup-hang_all j (e ∷ es) m =
    ground (arith, lookup-hang_all j es (hang_endpoint e m), lookup-hang_endpoint e j m)

hang_endpoint-IsMap :
    (e : Endpoint) (m : Dict Endpoint Attributes) → IsMap m → IsMap (hang_endpoint e m)
unfolding hang_endpoint
hang_endpoint-IsMap e m h = elim (Option-cases (lookup e m)) [
  | inl missing ↦ rw (missing, hang_endpoint) h
  | inr (a, found) ↦
      rw (found, hang_endpoint)
        (insert-IsMap e (record a { common = record { available = false } }) m h)
]

pub hang_all-IsMap :
    (es : List Endpoint) (m : Dict Endpoint Attributes) → IsMap m → IsMap (hang_all es m)
unfolding hang_all
hang_all-IsMap [] m h = h
hang_all-IsMap (e ∷ es) m h = hang_all-IsMap es (hang_endpoint e m) (hang_endpoint-IsMap e m h)
