-- ===== src/Grpc/Balancer/Recovered.antt =====
-- The picker of pkg/yapr/core/grpc/balancer.go once a resolver without addresses has found some.
use yapr.Prelude.{ℕ, String, true, false, [], ◌∷◌, none, some, ◌≡◌, refl, string_eq}
use yapr.Prelude.Dict.{lookup, insert}
use yapr.Errcode.{Result, success}
use yapr.Types.{Router}
use yapr.Grpc.Balancer.{
  ConnState, is_failing, err_picker, last_resolver, Balancer, regenerate_picker,
}
use yapr.Grpc.Balancer.Updates.{
  ClientState, update_client_conn_state, connect_endpoints, connect_all, shut_removed,
}

module _ {X : Type 0} (evaluate : X → ConnState → ConnState → X × ConnState)
    (connect : X → String → X × Result ℕ) where
  -- Where the resolver had failed and there was no connection (so the state is a transient failure and no
  -- connection has reported an error), and it now finds an address to which a connection is opened,
  -- `UpdateClientConnState` returns no error, but the picker that it publishes gives the error of a
  -- resolver without one: "last resolver error: <nil>".
  pub recovered_picker :
      (b : Balancer X) (router : Router) (port : ℕ) (service addr : String) (x : X) (c : ℕ)
      → b.sub_conns ≡ []
      → is_failing b.state ≡ true
      → b.conn_err ≡ none
      → connect b.outside addr ≡ (x, success c)
      → let s : ClientState = record {
        attributes = some (router, port);
        endpoints = record { service = service; addresses = addr ∷ [] } ∷ [];
      } in
        let (b', bad) = update_client_conn_state evaluate connect s b in
        (bad ≡ false)
        × (b'.sub_conns ≡ (addr, c) ∷ [])
        × (b'.picker ≡ err_picker (last_resolver none))
  unfolding update_client_conn_state connect_endpoints connect_all shut_removed regenerate_picker
      lookup insert
  recovered_picker b router port service addr x c bare failing fine opened =
      rw (bare, opened, failing, fine) (refl, refl, refl)
