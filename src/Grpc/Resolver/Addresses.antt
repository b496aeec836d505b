-- ===== src/Grpc/Resolver/Addresses.antt =====
-- Which addresses the resolver finds.
use yapr.Prelude.{
  ℕ, suc, ◌+◌, String, Bool, false, List, [], ◌∷◌, ◌++◌, Option, none, some, ◌≡◌, refl, ◌∙◌, arith,
  ◌==◌, string_eq, if◌then◌else◌, not, ◌&&◌, ◌||◌, contains, ==_iff,
}
use yapr.Endpoint.{Endpoint}
use yapr.Types.{Selector}
use yapr.Grpc.Resolver.{
  address, port_at, Resolved, new_addresses, resolve_service, resolve_each, resolve,
}

abbrev pub count : String → List String → ℕ
count a [] = 0
count a (x ∷ xs) = if x == a then suc (count a xs) else count a xs

count-append : (a : String) (xs ys : List String) → count a (xs ++ ys) ≡ count a xs + count a ys
count-append a [] ys = omega arith
count-append a (x ∷ xs) ys = ground (arith, count-append a xs ys)

abbrev pub all_addresses : List Resolved → List String
all_addresses [] = []
all_addresses (r ∷ rs) = r.addresses ++ all_addresses rs

-- An endpoint has the address, with its own port or else the selector's.
abbrev pub offers : Selector → List Endpoint → String → Bool
offers s [] a = false
offers s (e ∷ endpoints) a = address e.ip (port_at s e) == a || offers s endpoints a

abbrev pub offers_found : Selector → Option (List Endpoint) → String → Bool
offers_found s none a = false
offers_found s (some endpoints) a = offers s endpoints a

abbrev pub once_if : Bool → ℕ
once_if b = if b then 1 else 0

new_addresses_lem :
    (s : Selector) (visited : List String) (endpoints : List Endpoint) (a : String)
    → (contains a (new_addresses s visited endpoints).0
        ≡ (contains a visited || offers s endpoints a))
      × (count a (new_addresses s visited endpoints).1
          ≡ once_if (offers s endpoints a && not (contains a visited)))
unfolding new_addresses
new_addresses_lem s visited [] a = ground arith
new_addresses_lem s visited (e ∷ endpoints) a =
    let addr = address e.ip (port_at s e) in
    let seen = new_addresses_lem s visited endpoints a in
    let new = new_addresses_lem s (addr ∷ visited) endpoints a in
    ground (arith, seen, new, ==_iff addr a)

resolve_service_lem :
    (next : List String → List Resolved) (a : String) (later : Bool)
    → ((visited : List String)
        → count a (all_addresses (next visited)) ≡ once_if (later && not (contains a visited)))
    → (visited : List String) (s : Selector) (found : Option (List Endpoint))
    → count a (all_addresses (resolve_service next visited s found))
      ≡ once_if ((offers_found s found a || later) && not (contains a visited))
resolve_service_lem next a later rest visited s none = rest visited
resolve_service_lem next a later rest visited s (some endpoints) =
    let found = new_addresses_lem s visited endpoints a in
    let after = new_addresses s visited endpoints in
    count-append a after.1 (all_addresses (next after.0)) ∙ ground (arith, found, rest after.0)

module _ (services : String → Option (List Endpoint)) where
  abbrev pub offered : List Selector → String → Bool
  offered [] a = false
  offered (s ∷ selectors) a = offers_found s (services s.service) a || offered selectors a

  resolve_each_lem :
      (selectors : List Selector) (visited : List String) (a : String)
      → count a (all_addresses (resolve_each services selectors visited))
        ≡ once_if (offered selectors a && not (contains a visited))
  unfolding resolve_each
  resolve_each_lem [] visited a = refl
  resolve_each_lem (s ∷ selectors) visited a =
      resolve_service_lem (λ v. resolve_each services selectors v) a (offered selectors a)
        (λ v. resolve_each_lem selectors v a) visited s (services s.service)

  -- Among the addresses that the resolver finds for selectors, an address stands once, if an endpoint of a
  -- service that is found has it, with its own port or else the selector's; no other one stands there.
  pub resolve_addresses :
      (selectors : List Selector) (a : String)
      → count a (all_addresses (resolve services selectors)) ≡ once_if (offered selectors a)
  unfolding resolve
  resolve_addresses selectors a = resolve_each_lem selectors [] a ∙ ground arith
