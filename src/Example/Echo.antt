-- ===== src/Example/Echo.antt =====
-- cmd/example/echo/server/main.go: the custom route that a call of `Echo` asks for. The two clock
-- readings are those of the calls of `SetCustomRoute`.
pub mod Overwritten
use yapr.Prelude.{
  ℕ, ◌≤◌, String, string_eq, Bool, true, false, ◌&&◌, not, List, [], ◌∷◌, Option, none, some,
  is_some, or_default, ◌==◌, ==_refl, ==_iff, if◌then◌else◌, ◌≡◌, refl, sym, ap, ◌∙◌, ◌⊎◌, inl, inr,
  arith, Bool-cases,
}
use yapr.Prelude.Dict.{lookup}
use yapr.Endpoint.{Endpoint, to_string, endpoint_from_string}
use yapr.Errcode.{Result, success, failure}
use yapr.Text.Decimal.{ℤ, pos}
use yapr.Store.Routes.{
  Routes, hget, hset, hget-hset, is_past, set_custom_route, get_custom_route, found_route, old_text,
}
use yapr.Store.Routes.Swap.{
  in_force, holder, gives_way, parsed, stored, is_paired, set_custom_route_swap,
}
use yapr.Sdk.Server.{YaprSdk}
use yapr.Sdk.Metadata.{Md}
use yapr.Sdk.Handover.{Shared, set_custom_route_server, found_route-to_string}

abbrev pub some_value : List String → Bool
some_value [] = false
some_value (v ∷ values) = true

-- `len(md.Get(k)) > 0`
abbrev pub asked : Md → String → Bool
asked md k = some_value (or_default (lookup k md) [])

-- Behind the first call of `SetCustomRoute`.
abbrev pub after_set :
    ℕ → YaprSdk → Shared → Endpoint → String → Bool → Result (Option Endpoint) → YaprSdk × Shared
after_set now y c e uid overwrite (failure err) = (y, c)
after_set now y c e uid overwrite (success none) = (y, c)
after_set now y c e uid false (success (some old)) = (y, c)
after_set now y c e uid true (success (some old)) =
    let (y', c', _) = set_custom_route_server now y c "echo-dir" uid e (some old) (pos 0) in
    (y', c')

abbrev pub set_route : ℕ → ℕ → YaprSdk → Shared → Endpoint → String → Bool → YaprSdk × Shared
set_route now later y c e uid overwrite =
    let (y', c', result) = set_custom_route_server now y c "echo-dir" uid e none (pos 0) in
    after_set later y' c' e uid overwrite result

abbrev pub with_uid : ℕ → ℕ → YaprSdk → Shared → Endpoint → Md → List String → YaprSdk × Shared
with_uid now later y c e md [] = (y, c)
with_uid now later y c e md (uid ∷ more) =
    if asked md "set-custom-route"
    then set_route now later y c e uid (asked md "overwrite")
    else (y, c)

abbrev pub with_md : ℕ → ℕ → YaprSdk → Shared → Endpoint → Option Md → YaprSdk × Shared
with_md now later y c e none = (y, c)
with_md now later y c e (some md) = with_uid now later y c e md (or_default (lookup "x-uid" md) [])

-- `Echo` at the server's endpoint `e`; its answer is the same on every path.
unfoldable pub echo_call : ℕ → ℕ → YaprSdk → Shared → Endpoint → Option Md → YaprSdk × Shared
echo_call now later y c e md = with_md now later y c e md
