-- ===== src/Sdk/Server/Requests.antt =====
-- Which requests a server takes under the strategy `direct`.
use yapr.Prelude.{
  String, Bool, true, false, Option, none, some, ◌≡◌, refl, ◌∙◌, sym, ap, arith, ==_refl, string_eq,
  Bool-cases, inl, inr,
}
use yapr.Prelude.Dict.{Dict, lookup}
use yapr.Endpoint.{Endpoint, endpoint_from_string, equal_endpoints}
use yapr.Errcode.{Error, Result, success, failure}
use yapr.Sdk.Server.{
  RoutingTable, get_route, refresh, YaprSdk, header, expected, expect_endpoint, direct_error,
  on_request_received,
}
use yapr.Sdk.Server.Migration.{get_route-add_route}

-- What `Refresh` and the table give for a route is what the table holds afterwards.
expected-get_route :
    (stored : Result (Option Endpoint)) (table : RoutingTable) (s v : String) (resent : Bool)
    (former : Option Endpoint) (e : Endpoint)
    → get_route table s v ≡ former
    → (expected stored table s v resent former).1 ≡ some e
    → get_route (expected stored table s v resent former).0 s v ≡ some e
unfolding refresh
expected-get_route (success d) table s v resent none e is h =
    get_route-add_route table s v s v d ∙ ground (arith, ==_refl s, ==_refl v, h)
expected-get_route (failure err) table s v resent none e is h = absurd (ground (arith, h))
expected-get_route (success d) table s v true (some f) e is h =
    get_route-add_route table s v s v d ∙ ground (arith, ==_refl s, ==_refl v, h)
expected-get_route (failure err) table s v true (some f) e is h = absurd (ground (arith, h))
expected-get_route stored table s v false (some f) e is h = is ∙ h

-- Let a request under `direct` for a known selector name the endpoint `e` in its headers, and let the
-- server take it. Then the server's table afterwards holds, for the request's selector and value, an
-- endpoint of the same address and port.
pub on_request_received_lem :
    (stored : Result (Option Endpoint)) (y : YaprSdk) (headers : Dict String String) (e : Endpoint)
    → lookup "yapr-strategy" headers ≡ some "direct"
    → endpoint_from_string (header headers "yapr-endpoint") ≡ some e
    → (on_request_received stored true y headers).1 ≡ none
    → (d : Endpoint) × (get_route
          (on_request_received stored true y headers).0.routing_table
          (header headers "yapr-selector")
          (header headers "yapr-header-value")
        ≡ some d)
      × (equal_endpoints (some e) (some d) ≡ true)
unfolding on_request_received expect_endpoint
on_request_received_lem stored y headers e direct sent taken =
    rw direct (by_expected (expect_endpoint stored y.routing_table headers).1 refl)
  where
    accepted : direct_error headers (expect_endpoint stored y.routing_table headers).1 ≡ none
    accepted = rw direct at taken

    direct_lem :
        (o : Option Endpoint) → direct_error headers o ≡ none → equal_endpoints (some e) o ≡ true
    direct_lem o fine = elim (Bool-cases (equal_endpoints (some e) o)) [
      | inl same ↦ same
      | inr differ ↦ absurd (ground (arith, rw (sent, differ) at fine))
    ]

    held :
        (d : Endpoint)
        → (expect_endpoint stored y.routing_table headers).1 ≡ some d
        → get_route
            (expect_endpoint stored y.routing_table headers).0
            (header headers "yapr-selector")
            (header headers "yapr-header-value")
          ≡ some d
    held d is =
        expected-get_route stored y.routing_table (header headers "yapr-selector")
          (header headers "yapr-header-value") _ _ d refl is

    by_expected :
        (o : Option Endpoint)
        → (expect_endpoint stored y.routing_table headers).1 ≡ o
        → (d : Endpoint) × (get_route
              (expect_endpoint stored y.routing_table headers).0
              (header headers "yapr-selector")
              (header headers "yapr-header-value")
            ≡ some d)
          × (equal_endpoints (some e) (some d) ≡ true)
    by_expected none is =
        absurd
          (ground (arith, sent, direct_lem none (sym (ap (direct_error headers) is) ∙ accepted)))
    by_expected (some d) is =
        (d, held d is, direct_lem (some d) (sym (ap (direct_error headers) is) ∙ accepted))

-- A request under `direct` for a known selector whose endpoint cannot be read is taken when the table
-- has no route for it and the store has none either.
pub malformed_request :
    (err : Error) (y : YaprSdk) (headers : Dict String String)
    → lookup "yapr-strategy" headers ≡ some "direct"
    → endpoint_from_string (header headers "yapr-endpoint") ≡ none
    → get_route y.routing_table
        (header headers "yapr-selector")
        (header headers "yapr-header-value")
      ≡ none
    → on_request_received (failure err) true y headers ≡ (y, none)
unfolding on_request_received expect_endpoint refresh
malformed_request err y headers direct unread unknown = simp (direct, unread, unknown) refl
