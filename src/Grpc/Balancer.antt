-- ===== src/Grpc/Balancer.antt =====
-- pkg/yapr/core/grpc/balancer.go: its state, and what is done on an error of the resolver. A connection is a number; the
-- evaluator of gRPC and `NewSubConn` work on a state of their own.
pub mod Updates
pub mod Shown
pub mod Recovered
use yapr.Prelude.{
  ℕ, String, Bool, true, false, List, [], ◌∷◌, ◌++◌, Option, none, some, ◌==◌, string_eq, nat_eq,
  if◌then◌else◌, not, ◌&&◌, ◌||◌,
}
use yapr.Prelude.Dict.{Dict, lookup, insert, delete, has}
use yapr.Errcode.{Error, coded, other, Result, success, failure, err_no_endpoint_available}
use yapr.Types.{Router}
use yapr.Grpc.Resolver.{Resolved}

-- `connectivity.State`
pub data ConnState : Type 0 where
  idle connecting ready transient_failure shutdown : ConnState

abbrev pub is_ready : ConnState → Bool
is_ready ready = true
is_ready s = false

abbrev pub is_failing : ConnState → Bool
is_failing transient_failure = true
is_failing s = false

abbrev pub same_bool : Bool → Bool → Bool
same_bool true b = b
same_bool false b = not b

-- The error of `mergeErrors`, before it is made a text.
pub data Merged : Type 0 where
  last_resolver : Option Error → Merged
  last_connection : Error → Merged
  last_both : Error → Error → Merged

-- `base.NewErrPicker` of an error, or `NewPicker`.
pub data Picker : Type 0 where
  no_sub_conn_picker : Picker
  err_picker : Merged → Picker
  yapr_picker : Dict String ℕ → Option Router → ℕ → Picker

-- What the balancer calls.
pub data Effect : Type 0 where
  connects shuts : ℕ → Effect
  publishes : ConnState → Picker → Effect

pub record Balancer (X : Type 0) : Type 0 where
  pub state : ConnState
  pub sub_conns : Dict String ℕ
  pub sc_states : Dict ℕ ConnState
  pub picker : Picker
  pub router : Option Router
  pub port : ℕ
  pub resolver_err : Option Error
  pub conn_err : Option Error
  -- the evaluator and the connection to gRPC, and the calls so far
  pub outside : X
  pub effects : List Effect

-- `Build`
abbrev pub new_balancer : {X : Type 0} → X → Balancer X
new_balancer outside = record {
  state = connecting;
  sub_conns = [];
  sc_states = [];
  picker = no_sub_conn_picker;
  router = none;
  port = 0;
  resolver_err = none;
  conn_err = none;
  outside = outside;
  effects = [];
}

abbrev pub merge_errors : Option Error → Option Error → Merged
merge_errors none resolver_err = last_resolver resolver_err
merge_errors (some conn_err) none = last_connection conn_err
merge_errors (some conn_err) (some resolver_err) = last_both conn_err resolver_err

abbrev pub is_empty : Dict String ℕ → Bool
is_empty [] = true
is_empty (entry ∷ m) = false

module _ {X : Type 0} where
  unfoldable pub regenerate_picker : Balancer X → Balancer X
  regenerate_picker b = record b {
    picker =
        if is_failing b.state
        then err_picker (merge_errors b.conn_err b.resolver_err)
        else yapr_picker b.sub_conns b.router b.port;
  }

  abbrev pub call : Effect → Balancer X → Balancer X
  call effect b = record b { effects = b.effects ++ effect ∷ [] }

  -- `y.cc.UpdateState(...)`
  abbrev pub publish : Balancer X → Balancer X
  publish b = call (publishes b.state b.picker) b

  unfoldable pub on_resolver_error : Error → Balancer X → Balancer X
  on_resolver_error err b =
      let noted = record b {
        resolver_err = some err;
        state = if is_empty b.sub_conns then transient_failure else b.state;
      } in
      if not (is_failing noted.state) then noted else publish (regenerate_picker noted)
