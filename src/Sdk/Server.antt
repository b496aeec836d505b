-- ===== src/Sdk/Server.antt =====
-- pkg/yapr/core/sdk/server: the routing table, and how a migration changes it.
pub mod Migration
pub mod Requests
pub mod Registration
pub mod Counters
use yapr.Prelude.{
  String, Bool, true, false, List, [], ◌∷◌, ◌++◌, Option, none, some, or_default, ◌==◌, string_eq,
  if◌then◌else◌, not, ◌&&◌, ◌||◌,
}
use yapr.Prelude.Dict.{insert_all, delete_all, Dict, lookup, insert, delete, has}
use yapr.Endpoint.{Endpoint, endpoint_eq, equal_endpoints, endpoint_from_string}
use yapr.Errcode.{
  Error, coded, with_data, err_wrong_endpoint, err_invalid_metadata, err_selector_not_found, Result,
  success, failure,
}

-- By selector, then by header value; an entry may be nil.
abbrev pub RoutingTable : Type 0
RoutingTable = Dict String (Dict String (Option Endpoint))

unfoldable pub add_route : RoutingTable → String → String → Option Endpoint → RoutingTable
add_route table selector value endpoint =
    insert selector (insert value endpoint (or_default (lookup selector table) [])) table

unfoldable pub get_route : RoutingTable → String → String → Option Endpoint
get_route table selector value =
    or_default (lookup value (or_default (lookup selector table) [])) none

abbrev deleted :
    RoutingTable → String → String → Option (Dict String (Option Endpoint)) → RoutingTable
deleted table selector value none = table
deleted table selector value (some routes) = insert selector (delete value routes) table

unfoldable pub delete_route : RoutingTable → String → String → RoutingTable
delete_route table selector value = deleted table selector value (lookup selector table)

-- `Refresh`: `stored` is what the store's `GetCustomRoute` returns, nil without an error for a stored
-- text that cannot be read.
unfoldable pub refresh :
    Result (Option Endpoint) → RoutingTable → String → String → RoutingTable × Option Endpoint
refresh (success endpoint) table selector value =
    (add_route table selector value endpoint, endpoint)
refresh (failure err) table selector value = (table, none)

-- A call of the migration listener.
pub record Notice : Type 0 where
  pub selector : String
  pub value : String
  pub source : Option Endpoint
  pub target : Option Endpoint

pub record YaprSdk : Type 0 where
  pub endpoints : Dict Endpoint (Unit {0})
  pub endpoints_by_service : Dict String (List Endpoint)
  pub routing_table : RoutingTable
  -- whether a migration listener is set, and what it has been called with
  pub listening : Bool
  pub notices : List Notice

abbrev pub own : YaprSdk → Option Endpoint → Bool
own y none = false
own y (some e) = has e y.endpoints

-- The table without the route, if the endpoint that it leaves is the server's own.
abbrev pub left : YaprSdk → String → String → Option Endpoint → RoutingTable
left y selector value source =
    if own y source then delete_route y.routing_table selector value else y.routing_table

abbrev pub arrives : YaprSdk → RoutingTable → String → String → Option Endpoint → Bool
arrives y table selector value target =
    own y target && not (equal_endpoints target (get_route table selector value))

abbrev pub arrived : RoutingTable → String → String → Option Endpoint → Bool → RoutingTable
arrived table selector value (some e) true = add_route table selector value (some e)
arrived table selector value target b = table

unfoldable pub on_migration :
    YaprSdk → String → String → Option Endpoint → Option Endpoint → YaprSdk
on_migration y selector value source target =
    let table = left y selector value source in
    let arriving = arrives y table selector value target in
    let notice : Notice = record {
      selector = selector;
      value = value;
      source = source;
      target = target;
    } in
    let moved = record y {
      routing_table = arrived table selector value target arriving;
      notices =
          if (own y source || arriving) && y.listening then y.notices ++ notice ∷ [] else y.notices;
    } in
    if equal_endpoints source target then y else moved

-- `headers[k]`
abbrev pub header : Dict String String → String → String
header headers k = or_default (lookup k headers) ""

abbrev pub expected :
    Result (Option Endpoint)
    → RoutingTable
    → String
    → String
    → Bool
    → Option Endpoint
    → RoutingTable × Option Endpoint
expected stored table selector value resent none = refresh stored table selector value
expected stored table selector value true (some e) = refresh stored table selector value
expected stored table selector value false (some e) = (table, some e)

-- The test of a request under the strategy `direct`: the table after it, and the endpoint that the
-- request should have gone to. A request that was sent to the same endpoint before asks the store again.
unfoldable pub expect_endpoint :
    Result (Option Endpoint) → RoutingTable → Dict String String → RoutingTable × Option Endpoint
expect_endpoint stored table headers =
    let selector = header headers "yapr-selector" in
    let value = header headers "yapr-header-value" in
    let resent =
      equal_endpoints (endpoint_from_string (header headers "yapr-last-endpoint"))
        (endpoint_from_string (header headers "yapr-endpoint")) in
    expected stored table selector value resent (get_route table selector value)

abbrev pub wrong_endpoint : Dict String String → Error
wrong_endpoint headers = coded (
    with_data err_wrong_endpoint (
      ("selectorName", header headers "yapr-selector")
      ∷ ("headerValue", header headers "yapr-header-value")
      ∷ ("endpoint", header headers "yapr-endpoint")
      ∷ []))

abbrev pub direct_error : Dict String String → Option Endpoint → Option Error
direct_error headers expect =
    if equal_endpoints (endpoint_from_string (header headers "yapr-endpoint")) expect
    then none
    else some (wrong_endpoint headers)

-- The error of `OnRequestReceived`, and the server after it; `known` says whether `GetSelector` finds
-- the selector. The counters of reported requests are in `Counters`.
abbrev pub checked_strategy :
    Result (Option Endpoint) → YaprSdk → Dict String String → Bool → YaprSdk × Option Error
checked_strategy stored y headers false = (y, none)
checked_strategy stored y headers true =
    let (table, expect) = expect_endpoint stored y.routing_table headers in
    (record y { routing_table = table }, direct_error headers expect)

abbrev pub with_strategy_header :
    Result (Option Endpoint)
    → Bool
    → YaprSdk
    → Dict String String
    → Option String
    → YaprSdk × Option Error
with_strategy_header stored known y headers none = (y, some (coded err_invalid_metadata))
with_strategy_header stored false y headers (some strategy) =
    (y, some (coded err_selector_not_found))
with_strategy_header stored true y headers (some strategy) =
    checked_strategy stored y headers (strategy == "direct")

unfoldable pub on_request_received :
    Result (Option Endpoint) → Bool → YaprSdk → Dict String String → YaprSdk × Option Error
on_request_received stored known y headers =
    with_strategy_header stored known y headers (lookup "yapr-strategy" headers)

-- `RegisterService`, where the store's call returns no error.
unfoldable pub register_service : YaprSdk → String → List Endpoint → YaprSdk
register_service y service endpoints = record y {
  endpoints = insert_all endpoints tt y.endpoints;
  endpoints_by_service = insert service endpoints y.endpoints_by_service;
}

-- `UnregisterService`, where the store's call returns no error.
unfoldable pub unregister_service : YaprSdk → String → YaprSdk
unregister_service y service = record y {
  endpoints = delete_all (or_default (lookup service y.endpoints_by_service) []) y.endpoints;
  endpoints_by_service = delete service y.endpoints_by_service;
}
