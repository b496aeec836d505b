-- ===== src/Grpc/Balancer/Updates.antt =====
-- `UpdateClientConnState` and `updateSubConnState` of pkg/yapr/core/grpc/balancer.go. `evaluate` is
-- `RecordTransition` of gRPC's evaluator, and `connect` is `NewSubConn`.
pub mod Connections
use yapr.Prelude.{
  ℕ, String, Bool, true, false, List, [], ◌∷◌, Option, none, some, string_eq, nat_eq, if◌then◌else◌,
  not, ◌&&◌, ◌||◌,
}
use yapr.Prelude.Dict.{Dict, lookup, insert, delete, has}
use yapr.Errcode.{Error, coded, other, Result, success, failure, err_no_endpoint_available}
use yapr.Types.{Router}
use yapr.Grpc.Resolver.{Resolved}
use yapr.Grpc.Balancer.{
  ConnState, idle, connecting, ready, transient_failure, shutdown, is_ready, is_failing, same_bool,
  Effect, connects, shuts, Balancer, regenerate_picker, call, publish, is_empty, on_resolver_error,
}

-- `balancer.ClientConnState`: the attributes, and the endpoints of the resolver.
pub record ClientState : Type 0 where
  pub attributes : Option (Router × ℕ)
  pub endpoints : List Resolved

abbrev pub is_idle : ConnState → Bool
is_idle idle = true
is_idle s = false

abbrev pub is_connecting : ConnState → Bool
is_connecting connecting = true
is_connecting s = false

module _ {X : Type 0} (evaluate : X → ConnState → ConnState → X × ConnState)
    (connect : X → String → X × Result ℕ) where
  abbrev pub created :
      String → Balancer X → Dict String ℕ → X × Result ℕ → Balancer X × Dict String ℕ
  created addr b fresh (x, failure err) = (on_resolver_error err (record b { outside = x }), fresh)
  created addr b fresh (x, success c) = (
    call (connects c) (record b {
      outside = (evaluate x shutdown idle).0;
      sc_states = insert c idle b.sc_states;
    }),
    insert addr c fresh,
  )

  abbrev pub connected : String → Balancer X → Dict String ℕ → Option ℕ → Balancer X × Dict String ℕ
  connected addr b fresh (some c) = (b, insert addr c fresh)
  connected addr b fresh none = created addr b fresh (connect b.outside addr)

  -- the inner loop, with the connections so far
  unfoldable pub connect_all : List String → Balancer X → Dict String ℕ → Balancer X × Dict String ℕ
  connect_all [] b fresh = (b, fresh)
  connect_all (addr ∷ addrs) b fresh =
      let (b', fresh') = connected addr b fresh (lookup addr b.sub_conns) in
      connect_all addrs b' fresh'

  -- the outer loop
  unfoldable pub connect_endpoints :
      List Resolved → Balancer X → Dict String ℕ → Balancer X × Dict String ℕ
  connect_endpoints [] b fresh = (b, fresh)
  connect_endpoints (r ∷ rs) b fresh =
      let (b', fresh') = connect_all r.addresses b fresh in connect_endpoints rs b' fresh'

  abbrev pub shut_unless : Bool → ℕ → Balancer X → Balancer X
  shut_unless true c b = b
  shut_unless false c b = call (shuts c) b

  -- The connections whose address is gone are shut.
  unfoldable pub shut_removed : Dict String ℕ → Dict String ℕ → Balancer X → Balancer X
  shut_removed [] fresh b = b
  shut_removed ((addr, c) ∷ m) fresh b = shut_removed m fresh (shut_unless (has addr fresh) c b)

  -- The balancer, and whether the error is `ErrBadResolverState`.
  abbrev pub replaced : Dict String ℕ → Balancer X → Balancer X × Bool
  replaced fresh b =
      let bad : Balancer X × Bool = (on_resolver_error (coded err_no_endpoint_available) b, true) in
      if is_empty fresh then bad else (publish (regenerate_picker b), false)

  abbrev pub reconnected : Balancer X × Dict String ℕ → Balancer X × Bool
  reconnected (b, fresh) =
      let shut = shut_removed b.sub_conns fresh b in
      replaced fresh (record shut { sub_conns = fresh })

  abbrev pub with_endpoints : Balancer X → List Resolved → Balancer X × Bool
  with_endpoints b [] = (on_resolver_error (other "no endpoints") b, true)
  with_endpoints b (r ∷ rs) = reconnected (connect_endpoints (r ∷ rs) b [])

  abbrev pub with_attributes : Balancer X → Option (Router × ℕ) → List Resolved → Balancer X × Bool
  with_attributes b none endpoints = (on_resolver_error (other "attributes is nil") b, true)
  with_attributes b (some (router, port)) endpoints =
      with_endpoints (record b { router = some router; port = port }) endpoints

  unfoldable pub update_client_conn_state : ClientState → Balancer X → Balancer X × Bool
  update_client_conn_state s b =
      with_attributes (record b { resolver_err = none }) s.attributes s.endpoints

  -- `switch s`
  abbrev pub entered : ℕ → ConnState → Option Error → Balancer X → Balancer X
  entered c idle err b = call (connects c) b
  entered c shutdown err b = record b { sc_states = delete c b.sc_states }
  entered c transient_failure err b = record b { conn_err = err }
  entered c connecting err b = b
  entered c ready err b = b

  abbrev pub evaluated : ConnState → ConnState → Balancer X → Balancer X
  evaluated old s b =
      let (x, state) = evaluate b.outside old s in record b { outside = x; state = state }

  -- The balancer before it publishes.
  abbrev pub moved : ℕ → ConnState → Option Error → Balancer X → ConnState → Balancer X
  moved c s err b old =
      let entry = entered c s err (record b { sc_states = insert c s b.sc_states }) in
      let after = evaluated old s entry in
      if not (same_bool (is_ready s) (is_ready old)) || is_failing after.state
      then regenerate_picker after
      else after

  abbrev pub known_state : ℕ → ConnState → Option Error → Balancer X → Option ConnState → Balancer X
  known_state c s err b none = b
  known_state c s err b (some old) =
      let ignored = if is_idle s then call (connects c) b else b in
      let changed = publish (moved c s err b old) in
      if is_failing old && (is_connecting s || is_idle s) then ignored else changed

  unfoldable pub update_sub_conn_state : ℕ → ConnState → Option Error → Balancer X → Balancer X
  update_sub_conn_state c s err b = known_state c s err b (lookup c b.sc_states)
