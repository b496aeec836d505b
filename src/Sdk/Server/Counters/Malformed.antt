-- ===== src/Sdk/Server/Counters/Malformed.antt =====
-- A request whose endpoint cannot be read, under a strategy that has its requests counted.
use yapr.Prelude.{ℕ, String, string_eq, [], ◌∷◌, Option, none, some, ◌≡◌, refl}
use yapr.Prelude.Dict.{Dict, lookup}
use yapr.Endpoint.{endpoint_from_string}
use yapr.Errcode.{Result}
use yapr.Endpoint.{Endpoint}
use yapr.Go.{panic, nil_dereference}
use yapr.Sdk.Server.{YaprSdk, header, on_request_received}
use yapr.Sdk.Server.Counters.{
  counter_key, task_of, Reporting, started, check_update, timer_fired, counter_loaded, report_rps,
  take_at, Event, serve_event, run_events,
}

-- Let no goroutine of a server have anything to do. A request under `least_request` for a selector that
-- is found, whose endpoint cannot be read and whose key has no mark, is taken, and once its
-- goroutine has waited and reports, the process panics.
pub malformed_least_request :
    (y : YaprSdk) (r : Reporting) (headers : Dict String String) (stored : Result (Option Endpoint))
    (max_requests : Option ℕ)
    → lookup "yapr-strategy" headers ≡ some "least_request"
    → endpoint_from_string (header headers "yapr-endpoint") ≡ none
    → r.checks ≡ []
    → r.timers ≡ []
    → r.readers ≡ []
    → r.loads ≡ []
    → lookup (counter_key (task_of headers)) r.report_mark ≡ none
    → run_events
        (y, r)
        (Event.request stored (some max_requests) headers
          ∷ Event.checks_update 0
          ∷ Event.fires 0
          ∷ Event.reads 0
          ∷ Event.tells 0
          ∷ [])
      ≡ panic nil_dereference
unfolding run_events serve_event on_request_received started check_update timer_fired counter_loaded
    report_rps take_at
malformed_least_request y r headers stored none strategy unread c t d none_loaded unmarked =
    simp (strategy, unread, unmarked, none_loaded) refl
malformed_least_request y r headers stored (some m) strategy unread c t d none_loaded unmarked =
    simp (strategy, unread, unmarked, none_loaded) refl
