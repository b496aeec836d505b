-- ===== src/Tests/Servers.antt =====
-- A server that two endpoints migrate between, and its requests.
use yapr.Prelude.{String, true, [], ◌∷◌, some, ◌≡◌, refl, string_eq}
use yapr.Prelude.Dict.{Dict, lookup}
use yapr.Endpoint.{Endpoint, endpoint_eq, equal_endpoints, endpoint_from_string}
use yapr.Errcode.{failure, coded, err_no_custom_route}
use yapr.Sdk.Server.{YaprSdk, get_route, expect_endpoint, on_request_received}
use yapr.Sdk.Server.Requests.{on_request_received_lem}
use yapr.Tests.{alpha}

-- It serves at one endpoint, and has a route to it.
abbrev server : YaprSdk
server = record {
  endpoints = (alpha, tt) ∷ [];
  endpoints_by_service = [];
  routing_table = ("room", ("7", some alpha) ∷ []) ∷ [];
  listening = true;
  notices = [];
}

abbrev sent_to : String → Dict String String
sent_to endpoint =
    ("yapr-strategy", "direct")
    ∷ ("yapr-selector", "room")
    ∷ ("yapr-header-value", "7")
    ∷ ("yapr-endpoint", endpoint)
    ∷ []

on_request_received_lem_example :
    (d : Endpoint) × (get_route
        (on_request_received
          (failure (coded err_no_custom_route))
          true
          server
          (sent_to "10.0.0.1#pod-a#8080")).0.routing_table
        "room"
        "7"
      ≡ some d)
    × (equal_endpoints (some alpha) (some d) ≡ true)
unfolding on_request_received expect_endpoint get_route lookup endpoint_from_string
on_request_received_lem_example =
    on_request_received_lem (failure (coded err_no_custom_route)) server
      (sent_to "10.0.0.1#pod-a#8080") alpha refl refl refl

abbrev idle : YaprSdk
idle = record server { routing_table = [] }
