-- ===== src/Sdk/Server/Registration.antt =====
-- The endpoints that a server takes as its own.
use yapr.Prelude.{String, List, string_eq, contains, not, ◌&&◌, ◌≡◌, arith, some, ==_refl}
use yapr.Prelude.Dict.{
  lookup, insert, lookup-insert, insert_all, lookup-insert_all, lookup-delete_all,
}
use yapr.Endpoint.{Endpoint, endpoint_eq}
use yapr.Sdk.Server.{YaprSdk, own, register_service, unregister_service}

-- A service that is registered and unregistered takes its endpoints away from the server, also those
-- that the server had before, and leaves the others as they were.
pub own-unregister_service :
    (y : YaprSdk) (service : String) (endpoints : List Endpoint) (e : Endpoint)
    → own (unregister_service (register_service y service endpoints) service) (some e)
      ≡ (own y (some e) && not (contains e endpoints))
unfolding register_service unregister_service
own-unregister_service y service endpoints e = rw (registered) (
    ground (
      arith,
      lookup-delete_all e endpoints (insert_all endpoints tt y.endpoints),
      lookup-insert_all e endpoints tt y.endpoints,
    ))
  where
    registered : lookup service (insert service endpoints y.endpoints_by_service) ≡ some endpoints
    registered =
        ground
          (arith, lookup-insert service service endpoints y.endpoints_by_service, ==_refl service)
