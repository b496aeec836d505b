-- ===== src/Tests/Echoes.antt =====
-- A user whose route goes to another endpoint, and a call that asks to overwrite it.
use yapr.Text.Decimal.{pos}
use yapr.Store.Routes.Swap.{stored}
use yapr.Prelude.{
  string_eq, [], ◌∷◌, some, ◌≡◌, refl, arith, false, is_some, ◌&&◌, not, if◌then◌else◌,
}
use yapr.Prelude.Dict.{lookup}
use yapr.Endpoint.{to_string, endpoint_from_string}
use yapr.Errcode.{success}
use yapr.Text.Decimal.{negsuc, format}
use yapr.Store.Routes.{get_custom_route}
use yapr.Sdk.Metadata.{Md}
use yapr.Sdk.Server.{YaprSdk}
use yapr.Sdk.Handover.{Shared}
use yapr.Example.Echo.{asked, echo_call}
use yapr.Example.Echo.Overwritten.{echo_call-get_custom_route}
use yapr.Tests.{alpha, beta}

abbrev taken : Shared
taken = record {
  routes = record {
    endpoints = ("echo-dir", ("7", to_string beta) ∷ []) ∷ [];
    deadlines = ("echo-dir", ("7", negsuc 0) ∷ []) ∷ [];
  };
  messages = [];
}

abbrev idle : YaprSdk
idle = record {
  endpoints = (alpha, tt) ∷ [];
  endpoints_by_service = [];
  routing_table = [];
  listening = false;
  notices = [];
}

abbrev call : Md
call = ("x-uid", "7" ∷ []) ∷ ("set-custom-route", "1" ∷ []) ∷ ("overwrite", "1" ∷ []) ∷ []

echo_call-get_custom_route_example :
    ((echo_call 5 6 idle taken alpha (some call)).1.routes ≡ (
      if is_some (some beta) && not (asked call "overwrite")
      then taken.routes
      else stored (if is_some (some beta) then 6 else 5) taken.routes "echo-dir" "7" alpha (pos 0)))
    × (get_custom_route (echo_call 5 6 idle taken alpha (some call)).1.routes "echo-dir" "7" ≡ (
        if is_some (some beta) && not (asked call "overwrite")
        then get_custom_route taken.routes "echo-dir" "7"
        else success (some alpha)))
unfolding lookup to_string endpoint_from_string format
echo_call-get_custom_route_example =
    echo_call-get_custom_route 5 6 idle taken alpha call "7" [] (some beta) (omega arith)
      (omega arith) refl refl refl refl (refl, refl)
