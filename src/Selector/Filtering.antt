-- ===== src/Selector/Filtering.antt =====
-- The map that `EndpointsWithAttribute` makes for the strategy.
use mathlib.Core.Path.{ap₂}
use yapr.Prelude.{
  Bool, false, List, [], ◌∷◌, Option, none, some, map, ◌≡◌, arith, contains, ==_iff, if◌then◌else◌,
  ◌&&◌, string_eq, ap, sym, ◌∙◌, Bool-cases, inl, inr, ◌==◌,
}
use yapr.Prelude.Dict.{lookup, insert, lookup-insert}
use yapr.Endpoint.{Endpoint, endpoint_eq}
use yapr.Types.{Attribute, Selector, EndpointFilter}
use yapr.Service.{Service, attributes, attribute_of, update}
use yapr.Go.{Go, ok, panic, deadlock, >>=-eq-ok, ok_injective}
use yapr.Strategy.{Candidates}
use yapr.Selector.{passes, collect, endpoints_with_attribute}

abbrev pub holds : Go Bool → Bool
holds (ok b) = b
holds (panic p) = false
holds deadlock = false

module _ (filters : List EndpointFilter) (s : Selector) (f : Endpoint → Attribute) where
  -- What the map holds for an endpoint, given what it held.
  abbrev entry : Endpoint → List Endpoint → Option Attribute → Option Attribute
  entry e endpoints former =
      if contains e endpoints && holds (passes filters s e (f e)) then some (f e) else former

  lookup-collect :
      (endpoints : List Endpoint) (result m : Candidates) (e : Endpoint)
      → collect filters s endpoints (map f endpoints) result ≡ ok m
      → lookup e m ≡ entry e endpoints (lookup e result)
  unfolding collect
  lookup-collect [] result m e h = ap (lookup e) (sym (ok_injective h))
  lookup-collect (d ∷ endpoints) result m e h =
      let (good, passed, later) = >>=-eq-ok (passes filters s d (f d)) _ h in
      let rest =
        lookup-collect endpoints (if good then insert d (f d) result else result) m e later in
      elim (Bool-cases (d == e)) [
        | inl here ↦
            let same = (==_iff d e).0 here in
            let own : passes filters s e (f e) ≡ ok good =
              ap (λ x. passes filters s x (f x)) (sym same) ∙ passed in
            elim (Bool-cases good) [
              | inl yes_good ↦
                  ground
                    (arith, rest, own, here, yes_good, ap f same, lookup-insert d e (f d) result)
              | inr not_good ↦ ground (arith, rest, own, here, not_good)
            ]
        | inr other ↦ elim (Bool-cases good) [
          | inl yes_good ↦ ground (arith, rest, other, yes_good, lookup-insert d e (f d) result)
          | inr not_good ↦ ground (arith, rest, other, not_good)
        ]
      ]

update-keeps :
    (service : Service)
    → ((update service).endpoints ≡ service.endpoints)
      × ((update service).attr_map ≡ service.attr_map)
unfolding update
update-keeps service = ground arith

-- Where `EndpointsWithAttribute` returns, its map has exactly the listed endpoints whose attributes
-- pass every filter, each with the attributes that the service has for this selector.
pub lookup-endpoints_with_attribute :
    (filters : List EndpointFilter) (s : Selector) (service service' : Service) (m : Candidates)
    (e : Endpoint)
    → endpoints_with_attribute filters s service ≡ ok (service', m)
    → lookup e m ≡ (
        if contains e service.endpoints
          && holds (passes filters s e (attribute_of service.attr_map s.name e))
        then some (attribute_of service.attr_map s.name e)
        else none)
unfolding endpoints_with_attribute attributes lookup
lookup-endpoints_with_attribute filters s service service' m e h =
    let (listed, kept) = update-keeps service in
    let (result, made, same) = >>=-eq-ok (collect filters s (update service).endpoints _ []) _ h in
    let all =
      lookup-collect filters s (attribute_of (update service).attr_map s.name)
        (update service).endpoints [] result e made in
    ap (λ p. lookup e p.1) (sym (ok_injective same))
    ∙ all
    ∙ ap₂ (λ es am. entry filters s (attribute_of am s.name) e es none) listed kept
