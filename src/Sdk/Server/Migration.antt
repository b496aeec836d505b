-- ===== src/Sdk/Server/Migration.antt =====
-- The routes of a server after a migration.
use yapr.Prelude.{
  String, Bool, true, false, [], Option, none, some, ◌≡◌, refl, ◌∙◌, arith, ◌==◌, ==_iff, string_eq,
  if◌then◌else◌, not, ◌&&◌, or_default, Option-cases, Bool-cases, inl, inr, nat_eq,
}
use yapr.Prelude.Dict.{lookup, insert, delete, lookup-insert, lookup-delete}
use yapr.Endpoint.{Endpoint, endpoint_eq, equal_endpoints}
use yapr.Sdk.Server.{
  arrived, RoutingTable, add_route, get_route, delete_route, YaprSdk, own, left, arrives,
  on_migration,
}

pub get_route-add_route :
    (table : RoutingTable) (s v s' v' : String) (o : Option Endpoint)
    → get_route (add_route table s v o) s' v'
      ≡ (if s == s' && v == v' then o else get_route table s' v')
unfolding get_route add_route
get_route-add_route table s v s' v' o = ground (
  arith,
  ==_iff s s',
  lookup-insert s s' (insert v o (or_default (lookup s table) [])) table,
  lookup-insert v v' o (or_default (lookup s table) []),
)

pub get_route-delete_route :
    (table : RoutingTable) (s v s' v' : String)
    → get_route (delete_route table s v) s' v'
      ≡ (if s == s' && v == v' then none else get_route table s' v')
unfolding get_route delete_route lookup
get_route-delete_route table s v s' v' = elim (Option-cases (lookup s table)) [
  | inl nothing ↦ ground (arith, ==_iff s s', nothing)
  | inr (routes, found) ↦ ground (
    arith,
    ==_iff s s',
    found,
    lookup-insert s s' (delete v routes) table,
    lookup-delete v v' routes,
  )
]

-- What the server's table is to hold for the route that migrates, given what it held.
abbrev pub migrated :
    YaprSdk → Option Endpoint → Option Endpoint → Option Endpoint → Option Endpoint
migrated y source target former =
    let rest = if own y source then none else former in
    if own y target && not (equal_endpoints target rest) then target else rest

route_after :
    (y : YaprSdk) (s v : String) (source : Option Endpoint) (s' v' : String)
    → get_route (left y s v source) s' v'
      ≡ (if own y source && (s == s' && v == v') then none else get_route y.routing_table s' v')
route_after y s v source s' v' = elim (Bool-cases (own y source)) [
  | inl mine ↦ rw mine (get_route-delete_route y.routing_table s v s' v')
  | inr other ↦ rw other refl
]

same_route :
    (table : RoutingTable) (s v s' v' : String)
    → (s == s' && v == v') ≡ true
    → get_route table s v ≡ get_route table s' v'
same_route table s v s' v' h =
    let same_s : s ≡ s' = ground (arith, ==_iff s s') in
    let same_v : v ≡ v' = ground (arith, ==_iff v v') in cc

-- After a migration between two endpoints that differ in address or port, the server's route for the
-- selector and the value is the target if that is an endpoint of the server; otherwise there is none
-- if the source is an endpoint of the server, and the former one if not. A target that equals the
-- former route in address and port leaves it as it is. Every other route is as before.
pub on_migration_route :
    (y : YaprSdk) (s v s' v' : String) (source target : Option Endpoint)
    → equal_endpoints source target ≡ false
    → get_route (on_migration y s v source target).routing_table s' v' ≡ (
        if s == s' && v == v'
        then migrated y source target (get_route y.routing_table s' v')
        else get_route y.routing_table s' v')
unfolding on_migration
on_migration_route y s v s' v' source none differ =
    rw differ (route_after y s v source s' v' ∙ ground arith)
on_migration_route y s v s' v' source (some e) differ =
    rw differ (moved (arrives y (left y s v source) s v (some e)) refl)
  where
    table : RoutingTable
    table = left y s v source

    -- the route that migrates, before the target arrives
    rest :
        (s == s' && v == v') ≡ true
        → get_route table s v ≡ (if own y source then none else get_route y.routing_table s' v')
    rest here =
        same_route table s v s' v' here ∙ route_after y s v source s' v' ∙ ground (arith, here)

    moved :
        (b : Bool)
        → arrives y table s v (some e) ≡ b
        → get_route (arrived table s v (some e) b) s' v' ≡ (
            if s == s' && v == v'
            then migrated y source (some e) (get_route y.routing_table s' v')
            else get_route y.routing_table s' v')
    moved true h =
        get_route-add_route table s v s' v' (some e) ∙ elim (Bool-cases (s == s' && v == v')) [
          | inl here ↦ ground (arith, here, h, rest here)
          | inr there ↦ ground (arith, there, route_after y s v source s' v')
        ]
    moved false h = route_after y s v source s' v' ∙ elim (Bool-cases (s == s' && v == v')) [
      | inl here ↦ ground (arith, here, h, rest here)
      | inr there ↦ ground (arith, there)
    ]
