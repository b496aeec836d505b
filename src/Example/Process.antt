-- ===== src/Example/Process.antt =====
-- The server SDK under the server of cmd/example/echo-tcp, and what a broken connection leaves of its
-- counters.
pub mod Broken
use yapr.Prelude.{
  ℕ, String, string_eq, Bool, true, false, List, [], ◌∷◌, Option, none, some, is_some, ◌==◌,
  if◌then◌else◌,
}
use yapr.Prelude.Dict.{Dict}
use yapr.Endpoint.{Endpoint}
use yapr.Errcode.{Error, Result}
use yapr.Sdk.Server.{YaprSdk, header, on_request_received}
use yapr.Sdk.Server.Counters.{
  Task, counter_key, Reporting, response_sent, should_report, task_of, counted_request, Server,
}
use yapr.Example.Server.{Receiver}

-- without one request of the task's key
unfoldable pub removed : Task → List Task → List Task
removed t [] = []
removed t (u ∷ us) =
    let rest = removed t us in if counter_key u == counter_key t then us else u ∷ rest

-- `onResponseSent`
unfoldable pub request_sent : Task → Server → Server
request_sent t (y, r) = (y, response_sent r t (removed t r.in_flight))

abbrev pub sent_function :
    Dict String String → Option Error → Option (Option ℕ) → Option (Server → Server)
sent_function headers (some err) found = none
sent_function headers none none = none
sent_function headers none (some max_requests) =
    if should_report max_requests headers then some (request_sent (task_of headers)) else none

-- `OnRequestReceived` with its result, over the custom routes that the store has and the limits of the
-- selectors that are found.
unfoldable pub sdk_receiver :
    (String → String → Result (Option Endpoint)) → (String → Option (Option ℕ)) → Receiver Server
sdk_receiver stored find (y, r) headers =
    let selector = header headers "yapr-selector" in
    let found = find selector in
    let (y', err) =
      on_request_received (stored selector (header headers "yapr-header-value")) (is_some found) y
        headers in
    (((y', counted_request r headers err found), sent_function headers err found), err)
