-- ===== src/Grpc/Resolver.antt =====
-- pkg/yapr/core/grpc/resolver.go: the addresses of a router's services, and the watcher. `services` is
-- `Endpoints` of the service that `GetService` finds.
pub mod Addresses
pub mod Watcher
use yapr.Prelude.{
  ℕ, String, Bool, List, [], ◌∷◌, ◌++◌, Option, none, some, ◌==◌, string_eq, nat_eq, if◌then◌else◌,
  not, contains, true, false,
}
use yapr.Prelude.Dict.{Dict, keys, insert}
use yapr.Endpoint.{Endpoint}
use yapr.Errcode.{Error, Result, success, failure}
use yapr.Text.{concat}
use yapr.Text.Decimal.{format}
use yapr.Types.{Rule, Router, Selector}

-- `fmt.Sprintf("%s:%d", endpoint.IP, port)`
abbrev pub address : String → ℕ → String
address ip port = concat ip (concat ":" (format port))

abbrev pub port_at : Selector → Endpoint → ℕ
port_at selector e = if not (e.port == 0) then e.port else selector.port

-- `resolver.Endpoint`, its service by name
pub record Resolved : Type 0 where
  pub service : String
  pub addresses : List String

-- The inner loop: the addresses visited after it, and those that are new.
unfoldable pub new_addresses : Selector → List String → List Endpoint → List String × List String
new_addresses selector visited [] = (visited, [])
new_addresses selector visited (e ∷ endpoints) =
    let addr = address e.ip (port_at selector e) in
    let seen = new_addresses selector visited endpoints in
    let (visited', addrs) = new_addresses selector (addr ∷ visited) endpoints in
    if contains addr visited then seen else (visited', addr ∷ addrs)

abbrev pub resolve_service :
    (List String → List Resolved) → List String → Selector → Option (List Endpoint) → List Resolved
resolve_service next visited selector none = next visited
resolve_service next visited selector (some endpoints) =
    let (visited', addrs) = new_addresses selector visited endpoints in
    record { service = selector.service; addresses = addrs } ∷ next visited'

module _ (services : String → Option (List Endpoint)) where
  -- the outer loop
  unfoldable pub resolve_each : List Selector → List String → List Resolved
  resolve_each [] visited = []
  resolve_each (selector ∷ selectors) visited =
      resolve_service (λ visited'. resolve_each selectors visited') visited selector
        (services selector.service)

  -- `Endpoints`, for the selectors of the router
  unfoldable pub resolve : List Selector → List Resolved
  resolve selectors = resolve_each selectors []

-- The keys of `Selectors` of core/router.go: a set of the rules' selectors.
unfoldable pub selector_names : List Rule → Dict String (Unit {0}) → Dict String (Unit {0})
selector_names [] names = names
selector_names (rule ∷ rules) names = selector_names rules (insert rule.selector tt names)

abbrev with_selector : Result Selector → List Selector → List Selector
with_selector (success s) selectors = s ∷ selectors
with_selector (failure err) selectors = selectors

-- `find` is `GetSelector`.
unfoldable pub found_selectors : (String → Result Selector) → List String → List Selector
found_selectors find [] = []
found_selectors find (name ∷ names) = with_selector (find name) (found_selectors find names)

unfoldable pub selectors_of : (String → Result Selector) → Router → List Selector
selectors_of find router = found_selectors find (keys (selector_names router.rules []))

-- A state that is sent to the connection.
pub record ResolverState : Type 0 where
  pub endpoints : List Resolved
  pub router : Router
  pub port : ℕ

-- What a round of `watcher` sends, by the result of `GetRouter`.
abbrev pub resolver_state :
    (String → Result Selector)
    → (String → Option (List Endpoint))
    → ℕ
    → Result Router
    → Option ResolverState
resolver_state find services port (failure err) = none
resolver_state find services port (success router) = some (record {
  endpoints = resolve services (selectors_of find router);
  router = router;
  port = port;
})
