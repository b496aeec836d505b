-- ===== src/Grpc/Picker/Complete.antt =====
-- A route leads to a connection, where the balancer has one for each address that the resolver found:
-- pkg/yapr/core/grpc with `Route` of pkg/yapr/core/router.go.
use yapr.Prelude.{
  ℕ, zero, suc, String, Bool, true, List, [], ◌∷◌, Option, some, ◌≡◌, refl, arith, string_eq,
  get_elem?, ==_refl, Option-cases, inl, inr,
}
use yapr.Prelude.Dict.{Dict, lookup, has}
use yapr.Endpoint.{Endpoint}
use yapr.Go.{ok}
use yapr.Types.{MatchTarget, Router, Selector}
use yapr.Router.{Selectors, Event, routed, route}
use yapr.Router.Origin.{route-Origin}
use yapr.Sdk.Metadata.{Md}
use yapr.Grpc.Resolver.{address, port_at}
use yapr.Grpc.Resolver.Addresses.{offers, offers_found, offered}
use yapr.Grpc.Picker.{picked, outgoing_headers, pick}

offers_get :
    (s : Selector) (endpoints : List Endpoint) (i : ℕ) (e : Endpoint)
    → get_elem? endpoints i ≡ some e
    → offers s endpoints (address e.ip (port_at s e)) ≡ true
offers_get s [] i e h = absurd (ground (arith, h))
offers_get s (d ∷ endpoints) zero e h =
    let same : some d ≡ some e = h in
    let is : d ≡ e = cc in rw is (rw (==_refl (address e.ip (port_at s e))) refl)
offers_get s (d ∷ endpoints) (suc i) e h =
    let rest = offers_get s endpoints i e h in ground (arith, rest)

offered_get :
    (services : String → Option (List Endpoint)) (selectors : List Selector) (i : ℕ) (s : Selector)
    (a : String)
    → get_elem? selectors i ≡ some s
    → offers_found s (services s.service) a ≡ true
    → offered services selectors a ≡ true
offered_get services [] i s a h found = absurd (ground (arith, h))
offered_get services (t ∷ selectors) zero s a h found =
    let same : some t ≡ some s = h in let is : t ≡ s = cc in rw is (rw found refl)
offered_get services (t ∷ selectors) (suc i) s a h found =
    let rest = offered_get services selectors i s a h found in ground (arith, rest)

module _ (compile : String → Option (String → Bool)) (fresh : Option (Dict String String) → Md)
    {W C : Type 0} (sys : Selectors W) (services : String → Option (List Endpoint))
    (selectors : List Selector) (sub_conns : Dict String C) where
  -- Let the settings that `Route` finds be those of the selectors that the resolver saw, and let each
  -- address that it found for them have a connection. If `Route` returns an endpoint of the service, as the
  -- resolver saw it, `Pick` returns the connection at the endpoint's address, with what `metadata.New` makes of the route's headers.
  pub pick_complete :
      (r : Router) (port : ℕ) (uri : String) (md : Option Md) (events : List Event) (w w' : W)
      (headers : Dict String String) (service : String) (e : Endpoint) (route_port : ℕ)
      (route_headers : Option (Dict String String)) (endpoints : List Endpoint) (i : ℕ)
      → ((v : W) (name : String) (s : Selector)
          → sys.settings v name ≡ some s
          → (j : ℕ) × (get_elem? selectors j ≡ some s))
      → ((a : String) → offered services selectors a ≡ true → has a sub_conns ≡ true)
      → outgoing_headers md ≡ ok headers
      → route compile sys r (record { uri = uri; port = port; headers = headers }) events w
        ≡ ok (w', routed service e route_port route_headers)
      → services service ≡ some endpoints
      → get_elem? endpoints i ≡ some e
      → (c : C) × (lookup (address e.ip route_port) sub_conns ≡ some c)
        × (pick compile fresh sys sub_conns r port uri md events w
            ≡ ok (w', picked c (fresh route_headers)))
  unfolding pick lookup
  pick_complete r port uri md events w w' headers service e route_port route_headers endpoints i
        seen connected read found known stands =
      let target : MatchTarget = record { uri = uri; port = port; headers = headers } in
      let o =
        route-Origin compile sys r target events w w' (routed service e route_port route_headers)
          found refl in
      let (j, place) = seen o.w o.rule.selector o.selector o.known in
      let offer : offers_found o.selector (services o.selector.service) (address e.ip route_port)
          ≡ true =
        rw (← o.from.0, known, o.from.1) (offers_get o.selector endpoints i e stands) in
      let conn =
        connected (address e.ip route_port)
          (offered_get services selectors j o.selector _ place offer) in
      elim (Option-cases (lookup (address e.ip route_port) sub_conns)) [
        | inl gone ↦ absurd (ground (arith, gone, conn))
        | inr (c, is) ↦ (c, is, rw (read, found, is) refl)
      ]
