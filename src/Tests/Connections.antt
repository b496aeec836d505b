-- ===== src/Tests/Connections.antt =====
-- A resolver's addresses, a balancer's connections, and a pick.
use yapr.Prelude.{
  map, ℕ, suc, ◌+◌, ◌≤◌, length, false, String, true, List, [], ◌∷◌, ◌++◌, Option, none, some, ◌≡◌,
  refl, arith, ◌==◌, nat_eq, string_eq, ==_iff, contains, if◌then◌else◌,
}
use yapr.Prelude.Dict.{Dict, lookup, has}
use yapr.Endpoint.{Endpoint}
use yapr.Errcode.{Result, success, other}
use yapr.Go.{ok}
use yapr.Text.Decimal.{format}
use yapr.Router.{with_route}
use yapr.Sdk.Metadata.{Md, first_values}
use yapr.Grpc.Resolver.{address, Resolved, resolve}
use yapr.Grpc.Resolver.Addresses.{count, all_addresses, once_if, offered, resolve_addresses}
use yapr.Grpc.Balancer.{ConnState, ready, Balancer, new_balancer}
use yapr.Grpc.Balancer.Updates.{ClientState, update_client_conn_state}
use yapr.Grpc.Balancer.Updates.Connections.{
  Keeps, shut_conns, dropped, update_client_conn_state_connections,
}
use yapr.Grpc.Balancer.Shown.{
  IsShown, BalancerCall, resolver_fails, resolver_finds, reports, after_calls, new_balancer-IsShown,
}
use yapr.Grpc.Picker.{picked, pick}
use yapr.Grpc.Picker.Complete.{pick_complete}
use yapr.Grpc.Resolver.Watcher.{
  YaprResolver, Found, build_resolver, wakes, ticks, causes, watch, watch-updates_le,
}
use yapr.Router.Target.{parse_target}
use yapr.Text.Split.{split}
use yapr.Tests.{alpha, beta, settings}
use yapr.Tests.Routes.{compile, sys, router_of, routed_to_alpha}

abbrev services : String → Option (List Endpoint)
services name = if name == "echo" then some (alpha ∷ beta ∷ []) else none

resolve_addresses_example :
    count "10.0.0.2:7070" (all_addresses (resolve services (settings ∷ settings ∷ [])))
    ≡ once_if (offered services (settings ∷ settings ∷ []) "10.0.0.2:7070")
resolve_addresses_example = resolve_addresses services (settings ∷ settings ∷ []) "10.0.0.2:7070"

-- Each connection gets a number of its own, and the last state counts.
abbrev evaluate : ℕ → ConnState → ConnState → ℕ × ConnState
evaluate x old s = (x, s)

abbrev connect : ℕ → String → ℕ × Result ℕ
connect x addr = (suc x, success x)

abbrev found : Resolved
found = record { service = "echo"; addresses = "10.0.0.1:8080" ∷ "10.0.0.2:7070" ∷ [] }

abbrev serving : Balancer ℕ
serving = record (new_balancer 5) { sub_conns = ("10.0.0.1:8080", 3) ∷ ("10.0.0.9:80", 4) ∷ [] }

update_client_conn_state_connections_example :
    let s : ClientState = record {
      attributes = some (router_of none, 9090);
      endpoints = found ∷ [];
    } in
    let b' = (update_client_conn_state evaluate connect s serving).0 in
    let addrs = all_addresses (found ∷ []) in
    Keeps
      (lookup "10.0.0.1:8080" serving.sub_conns)
      (lookup "10.0.0.1:8080" b'.sub_conns)
      (contains "10.0.0.1:8080" addrs)
    × (has "10.0.0.1:8080" b'.sub_conns ≡ contains "10.0.0.1:8080" addrs)
    × (shut_conns b'.effects ≡ shut_conns serving.effects ++ dropped serving.sub_conns addrs)
update_client_conn_state_connections_example =
    update_client_conn_state_connections evaluate connect (λ x addr. (suc x, x, refl)) serving
      (router_of none) 9090 found [] "10.0.0.1:8080"

abbrev calls : List (BalancerCall evaluate connect)
calls =
    resolver_fails (other "down")
    ∷ resolver_finds (record { attributes = some (router_of none, 9090); endpoints = found ∷ [] })
    ∷ reports 0 ready none
    ∷ []

new_balancer-IsShown_example : IsShown (after_calls evaluate connect calls (new_balancer 0))
new_balancer-IsShown_example = new_balancer-IsShown evaluate connect calls 0

abbrev metadata : Md
metadata = ("user", "42" ∷ []) ∷ []

abbrev sub_conns : Dict String ℕ
sub_conns = ("10.0.0.1:8080", 3) ∷ ("10.0.0.2:7070", 4) ∷ []

all_connected : (a : String) → offered services (settings ∷ []) a ≡ true → has a sub_conns ≡ true
unfolding lookup format
all_connected a h = ground (arith, ==_iff "10.0.0.1:8080" a, ==_iff "10.0.0.2:7070" a)

-- `metadata.New` where the keys are in lower case and differ
abbrev new_metadata : Option (Dict String String) → Md
new_metadata none = []
new_metadata (some headers) = map (λ (k, v). (k, v ∷ [])) headers

pick_complete_example :
    (c : ℕ) × (lookup (address "10.0.0.1" 8080) sub_conns ≡ some c)
    × (pick compile new_metadata sys sub_conns (router_of none) 9090 "/echo" (some metadata) [] 5
        ≡ ok (6, picked c (new_metadata (with_route "echo" alpha (some [])))))
unfolding first_values
pick_complete_example =
    pick_complete compile new_metadata sys services (settings ∷ []) sub_conns (router_of none) 9090
      "/echo" (some metadata) [] 5 6 (("user", "42") ∷ []) "echo" alpha 8080
      (with_route "echo" alpha (some [])) (alpha ∷ beta ∷ []) 0 (λ v name s known. (0, known))
      all_connected refl routed_to_alpha refl refl

abbrev fresh : YaprResolver
fresh = record {
  router_name = "echo";
  port = 9090;
  rn = true;
  cancelled = false;
  stopped = false;
  updates = [];
}

abbrev seen : Found
seen = record {
  router = λ name. success (router_of none);
  selector = λ name. success settings;
  services = services;
}

watch-updates_le_example :
    length (watch fresh (wakes seen ∷ wakes seen ∷ ticks seen ∷ [])).updates
    ≤ 1 + causes (wakes seen ∷ wakes seen ∷ ticks seen ∷ [])
unfolding parse_target split build_resolver
watch-updates_le_example =
    watch-updates_le "echo" fresh (wakes seen ∷ wakes seen ∷ ticks seen ∷ []) refl
