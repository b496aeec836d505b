-- ===== src/Tests/Clients.antt =====
-- Calls that are refused, and a route that moves from one server to another.
use yapr.Prelude.{
  ℕ, suc, ◌+◌, ◌*◌, String, true, false, [], ◌∷◌, ◌++◌, Option, none, some, ◌≡◌, refl, arith,
  nat_eq, string_eq,
}
use yapr.Prelude.Dict.{Dict, lookup}
use yapr.Endpoint.{Endpoint, endpoint_eq, to_string, equal_endpoints}
use yapr.Errcode.{Error, coded, other, ErrWithCode, success, err_wrong_endpoint, err_max_retries}
use yapr.Go.{Go, ok}
use yapr.Text.Decimal.{format, pos}
use yapr.Router.{Routed, routed}
use yapr.Store.Routes.{get_custom_route}
use yapr.Store.Migrations.{migration_message}
use yapr.Sdk.Server.{YaprSdk, get_route}
use yapr.Sdk.Client.{Process, invoke, invoke_loop}
use yapr.Sdk.Client.Retries.{Within, Ends, invoke-Within, invoke-Ends}
use yapr.Sdk.Client.Calls.{invoke_route, invoke_route_refused}
use yapr.Sdk.Metadata.{Md}
use yapr.Sdk.Handover.{Shared, set_custom_route_server, hear, set_custom_route_handover}
use yapr.Strategy.Direct.{Direct}
use yapr.Strategy.Cache.Lru.{LruCache, new_lru_buffer}
use yapr.Types.{MatchTarget}
use yapr.Sdk.Client.Stale.{telling, calling, invoke_stale}
use yapr.Errcode.{with_data}
use yapr.Prelude.{◌==◌, if◌then◌else◌}
use yapr.Tests.{alpha, beta, two}
use yapr.Tests.Stores.{routes}

-- The state counts the calls and the waiting.
abbrev process : Process ℕ
process = record {
  sleep = λ s ms. s + ms;
  get_selector = λ s name. (s, none);
  notify_retry = λ s name value. ok s;
}

abbrev code_of : Error → Option ErrWithCode
code_of (coded e) = some e
code_of (other m) = none

abbrev refusing : ℕ → Dict String String → Go (ℕ × Option Error)
refusing s headers = ok (suc s, some (coded err_wrong_endpoint))

invoke-Within_example :
    Within
      (λ (s : ℕ). s)
      (λ (r : ℕ × Option Error). r.0)
      (3 * 1 + 600)
      0
      (invoke process code_of refusing 0)
invoke-Within_example =
    invoke-Within process code_of refusing (λ s. s) 1
      (λ s h. ((suc s, some (coded err_wrong_endpoint)), refl, omega arith)) (λ s ms. omega arith)
      (λ s name. omega arith) (λ s name value. (s, refl, omega arith)) 0

invoke-Ends_example : Ends process code_of refusing (603, some (coded err_max_retries))
unfolding invoke invoke_loop
invoke-Ends_example =
    invoke-Ends process code_of refusing 0 (603, some (coded err_max_retries)) refl

abbrev sender : ℕ → String → Endpoint → ℕ → Option (Dict String String) → Go (ℕ × Option Error)
sender s service e port headers = ok (suc s, some (coded err_wrong_endpoint))

abbrev to_alpha : ℕ → Go (ℕ × Routed)
to_alpha s = ok (s, routed "echo" alpha 8080 (some []))

invoke_route_refused_example :
    (s : ℕ) × (invoke_route process code_of sender to_alpha 0
      ≡ ok (s, some (coded err_max_retries)))
invoke_route_refused_example =
    invoke_route_refused process code_of sender "echo" alpha 8080
      (λ s headers. (suc s, coded err_wrong_endpoint, err_wrong_endpoint, refl, refl))
      (λ s name. (s, refl)) (λ s name value. (s, refl)) to_alpha 0 0 [] refl

abbrev metadata : Md
metadata = ("user", "42" ∷ []) ∷ []

abbrev read_headers : Dict String String
read_headers = ("user", "42") ∷ ("yapr-last-endpoint", "10.0.0.1") ∷ []

abbrev serving_at : Endpoint → YaprSdk
serving_at e = record {
  endpoints = (e, tt) ∷ [];
  endpoints_by_service = [];
  routing_table = [];
  listening = false;
  notices = [];
}

abbrev shared : Shared
shared = record { routes = routes; messages = [] }

set_custom_route_handover_example :
    let moved =
      set_custom_route_server 1000 (serving_at alpha) shared "room" "7" beta (some alpha) (pos 0) in
    let message = migration_message "room" "7" alpha beta in
    (moved.2 ≡ success none)
    × (moved.1.messages ≡ [] ++ message ∷ [])
    × (get_custom_route moved.1.routes "room" "7" ≡ success (some beta))
    × (get_route moved.0.routing_table "room" "7" ≡ none)
    × (equal_endpoints
          (some beta)
          (get_route (hear (serving_at beta) message).routing_table "room" "7")
        ≡ true)
unfolding lookup to_string format
set_custom_route_handover_example =
    set_custom_route_handover 1000 shared (serving_at alpha) (serving_at beta) "room" "7" alpha beta
      (pos 0) (omega arith) refl refl (ground arith) (ground arith)
      (ground arith, ground arith, ground arith, ground arith, omega arith)
      (ground arith, ground arith, ground arith, ground arith, omega arith) refl refl refl refl

abbrev cache : LruCache
cache = record (new_lru_buffer 2) {
  buf = ("7", 0) ∷ [];
  head = some 0;
  tail = some 0;
  free = 1;
  cells = λ m. record { header_value = "7"; endpoint = some alpha; prev = none; next = none };
}

abbrev direct : Direct LruCache
direct = record { header_key = "user"; cache = some cache; endpoints = two }

abbrev request_7 : MatchTarget
request_7 = record { uri = "/echo"; port = 9090; headers = ("user", "7") ∷ [] }

abbrev refusal : ErrWithCode
refusal = with_data err_wrong_endpoint (("headerValue", "7") ∷ [])

-- The server at the first endpoint has lost the route.
abbrev serve : Endpoint → Dict String String → Option Error
serve e headers = if e == alpha then some (coded refusal) else none

invoke_stale_example :
    (r : Direct LruCache) × (invoke
        (telling (success (some beta)))
        code_of
        (calling (success (some beta)) serve request_7)
        direct
      ≡ ok (r, none))
unfolding lookup
invoke_stale_example =
    invoke_stale code_of serve request_7 direct cache "7" 0 alpha beta (coded refusal) refusal refl
      refl refl refl refl refl refl refl refl refl refl refl
