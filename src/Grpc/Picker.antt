-- ===== src/Grpc/Picker.antt =====
-- pkg/yapr/core/grpc/picker.go, for a type of connections. `fresh` is `metadata.New`, of the route's
-- headers or of nil.
pub mod Complete
use yapr.Prelude.{
  ℕ, zero, suc, String, Bool, true, false, List, [], ◌∷◌, Option, none, some, ◌≡◌, refl, sym, ap,
  ◌∙◌, arith, ◌==◌, string_eq, ◌||◌, get_elem?, ==_refl, ==_iff,
}
use yapr.Prelude.Dict.{Dict, lookup}
use yapr.Endpoint.{Endpoint}
use yapr.Errcode.{Error}
use yapr.Go.{Go, ok, ◌>>=◌}
use yapr.Types.{MatchTarget, Router, Selector}
use yapr.Router.{Selectors, Event, Routed, routed, refused, route}
use yapr.Sdk.Metadata.{Md, first_values}
use yapr.Grpc.Resolver.{address}

-- The result of `Pick`: a connection with the metadata of the call, or an error: the router's, or
-- `ErrNoSubConnAvailable`.
pub data Pick (C : Type 0) : Type 0 where
  picked : C → Md → Pick C
  unrouted : Error → Pick C
  no_sub_conn : Pick C

abbrev pub outgoing_headers : Option Md → Go (Dict String String)
outgoing_headers none = ok []
outgoing_headers (some md) = first_values md

module _ (fresh : Option (Dict String String) → Md) where
  abbrev pub pick_found : {C : Type 0} → Option C → Option (Dict String String) → Pick C
  pick_found none headers = no_sub_conn
  pick_found (some c) headers = picked c (fresh headers)

  abbrev pub pick_routed : {C : Type 0} → Dict String C → Routed → Pick C
  pick_routed sub_conns (refused err) = unrouted err
  pick_routed sub_conns (routed service e port headers) =
      pick_found (lookup (address e.ip port) sub_conns) headers

module _ (compile : String → Option (String → Bool)) (fresh : Option (Dict String String) → Md)
    {W C : Type 0} (sys : Selectors W) where
  unfoldable pub pick :
      Dict String C → Router → ℕ → String → Option Md → List Event → W → Go (W × Pick C)
  pick sub_conns router port uri md events w = do
    headers ← outgoing_headers md
    let target : MatchTarget = record { uri = uri; port = port; headers = headers }
    (w', out) ← route compile sys router target events w
    ok (w', pick_routed fresh sub_conns out)
