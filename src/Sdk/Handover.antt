-- ===== src/Sdk/Handover.antt =====
-- `SetCustomRoute` of pkg/yapr/core/sdk/client and pkg/yapr/core/sdk/server: a route that moves from one
-- endpoint to another is stored, and the servers are told by a message.
use yapr.Prelude.{
  ℕ, ◌≤◌, String, true, false, List, [], ◌∷◌, ◌++◌, Option, none, some, ◌≡◌, refl, ap, ◌∙◌, arith,
  ◌==◌, string_eq, if◌then◌else◌, ==_refl, nat_eq, ==_iff, Bool-cases, inl, inr,
}
use yapr.Endpoint.{Endpoint, to_string, endpoint_from_string, equal_endpoints}
use yapr.Errcode.{Result, success}
use yapr.Text.Decimal.{ℤ}
use yapr.Text.Split.{Lacks}
use yapr.Store.Routes.{
  Routes, set_custom_route, get_custom_route, found_route, hget, hset, hget-hset,
}
use yapr.Store.Migrations.{
  Migration, migration_message, parse_migration, IsPlain, read, parse_migration-migration_message,
}
use yapr.Sdk.Server.{YaprSdk, on_migration, own, get_route}
use yapr.Sdk.Server.Migration.{migrated, on_migration_route}
use yapr.Store.Routes.Swap.{set_custom_route_swap, is_paired, holder, gives_way, stored}
use yapr.Text.Split.{split}

-- The store's routes, and the messages of "_migration" so far.
pub record Shared : Type 0 where
  pub routes : Routes
  pub messages : List String

-- `if old != nil && realOld == nil { st.NotifyMigration(...) }`
abbrev pub notified :
    Shared → String → String → Endpoint → Option Endpoint → Result (Option Endpoint) → Shared
notified c selector value endpoint (some old) (success none) = record c {
  messages = c.messages ++ migration_message selector value old endpoint ∷ [];
}
notified c selector value endpoint old found = c

-- The call of the client. A message that cannot be sent is only logged.
unfoldable pub set_custom_route_client :
    ℕ
    → Shared
    → String
    → String
    → Endpoint
    → Option Endpoint
    → ℤ
    → Shared × Result (Option Endpoint)
set_custom_route_client now c selector value endpoint old timeout =
    let (routes, found) = set_custom_route now c.routes selector value endpoint old timeout in
    (notified (record c { routes = routes }) selector value endpoint old found, found)

-- The server's own table follows at once.
abbrev pub followed :
    YaprSdk → String → String → Endpoint → Option Endpoint → Result (Option Endpoint) → YaprSdk
followed y selector value endpoint (some old) (success none) =
    on_migration y selector value (some old) (some endpoint)
followed y selector value endpoint old found = y

unfoldable pub set_custom_route_server :
    ℕ
    → YaprSdk
    → Shared
    → String
    → String
    → Endpoint
    → Option Endpoint
    → ℤ
    → YaprSdk × Shared × Result (Option Endpoint)
set_custom_route_server now y c selector value endpoint old timeout =
    let (routes, found) = set_custom_route now c.routes selector value endpoint old timeout in
    (
      followed y selector value endpoint old found,
      notified (record c { routes = routes }) selector value endpoint old found,
      found,
    )

abbrev pub on_parsed : YaprSdk → Option Migration → YaprSdk
on_parsed y none = y
on_parsed y (some m) = on_migration y m.selector m.value m.source m.target

-- A message of the channel, at a server that listens.
unfoldable pub hear : YaprSdk → String → YaprSdk
hear y message = on_parsed y (parse_migration message)

equal_endpoints_refl : (e : Endpoint) → equal_endpoints (some e) (some e) ≡ true
equal_endpoints_refl e = ground (arith, ==_refl e.ip, ==_refl e.port)

migrated_to :
    (y : YaprSdk) (source former : Option Endpoint) (e : Endpoint)
    → own y (some e) ≡ true
    → equal_endpoints (some e) (migrated y source (some e) former) ≡ true
migrated_to y source former e mine = elim (Bool-cases (equal_endpoints (some e) rest)) [
  | inl same ↦ rw (mine, same) same
  | inr other ↦ rw (mine, other) (equal_endpoints_refl e)
]
  where
    rest : Option Endpoint
    rest = if own y source then none else former

-- A text that is read as an endpoint is not empty.
pub to_string_nonempty :
    (e : Endpoint) → endpoint_from_string (to_string e) ≡ some e → (to_string e == "") ≡ false
unfolding endpoint_from_string split
to_string_nonempty e back = elim (Bool-cases (to_string e == "")) [
  | inl empty ↦
      let is : to_string e ≡ "" = (==_iff (to_string e) "").0 empty in
      let lost : endpoint_from_string "" ≡ some e = rw is at back in absurd (lost_none lost)
  | inr filled ↦ filled
]
  where
    lost_none : endpoint_from_string "" ≡ some e → ⊥
    lost_none h = cc

pub found_route-to_string :
    (e : Endpoint)
    → endpoint_from_string (to_string e) ≡ some e
    → found_route (some (to_string e)) ≡ success (some e)
found_route-to_string e back = rw (to_string_nonempty e back, back) refl

-- A route that is in force moves from an endpoint of one server to one of another, at the first server's
-- call; the names and the endpoints are such that their texts are read back. Then `SetCustomRoute`
-- returns no route and adds one message; the store has the new endpoint; the first server's table has no
-- route; and in the table of the other server, once it has heard the message, the route goes to the
-- address of the new endpoint.
pub set_custom_route_handover :
    (now : ℕ) (c : Shared) (a b : YaprSdk) (selector value : String) (old new : Endpoint)
    (timeout : ℤ)
    → 1 ≤ now
    → is_paired (hget c.routes.endpoints selector value) (hget c.routes.deadlines selector value)
      ≡ true
    → holder now c.routes selector value ≡ some (to_string old)
    → Lacks b' ' selector
    → Lacks b' ' value
    → IsPlain old
    → IsPlain new
    → equal_endpoints (some old) (some new) ≡ false
    → own a (some old) ≡ true
    → own a (some new) ≡ false
    → own b (some new) ≡ true
    → let moved = set_custom_route_server now a c selector value new (some old) timeout in
      let message = migration_message selector value old new in
      (moved.2 ≡ success none)
      × (moved.1.messages ≡ c.messages ++ message ∷ [])
      × (get_custom_route moved.1.routes selector value ≡ success (some new))
      × (get_route moved.0.routing_table selector value ≡ none)
      × (equal_endpoints (some new) (get_route (hear b message).routing_table selector value)
          ≡ true)
unfolding set_custom_route_server hear get_custom_route
set_custom_route_handover now c a b selector value old new timeout later paired held s v plain
      plain' differ leaves stays arrives =
    (
      rw accepted refl,
      rw accepted refl,
      rw accepted (ap found_route written ∙ found_route-to_string new back),
      rw accepted (
          on_migration_route a selector value selector value (some old) (some new) differ
          ∙ ground (arith, ==_refl selector, ==_refl value)),
      rw heard (rw there (migrated_to b (some old) _ new arrives)),
    )
  where
    back : endpoint_from_string (to_string new) ≡ some new
    back = read new plain'

    way : gives_way (holder now c.routes selector value) (to_string old) ≡ true
    way = rw held (==_refl (to_string old))

    accepted :
        set_custom_route now c.routes selector value new (some old) timeout
        ≡ (stored now c.routes selector value new timeout, success none)
    accepted =
        set_custom_route_swap now c.routes selector value new (some old) timeout later paired
        ∙ rw way refl

    written :
        hget (hset c.routes.endpoints selector value (to_string new)) selector value
        ≡ some (to_string new)
    written =
        hget-hset c.routes.endpoints selector value selector value (to_string new)
        ∙ ground (arith, ==_refl selector, ==_refl value)

    heard :
        parse_migration (migration_message selector value old new)
        ≡ some (record { selector = selector; value = value; source = some old; target = some new })
    heard = parse_migration-migration_message selector value old new s v plain plain'

    there :
        get_route (on_migration b selector value (some old) (some new)).routing_table selector value
        ≡ migrated b (some old) (some new) (get_route b.routing_table selector value)
    there =
        on_migration_route b selector value selector value (some old) (some new) differ
        ∙ ground (arith, ==_refl selector, ==_refl value)
