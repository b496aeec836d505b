-- ===== src/Tests/Reports.antt =====
-- A server that counts the requests of two rooms.
use yapr.Prelude.{
  ℕ, ◌+◌, length, arith, false, ◌%◌, ◌^◌, String, string_eq, List, [], ◌∷◌, none, some, ◌≡◌, refl,
}
use yapr.Prelude.Dict.{Dict, lookup, insert, delete}
use yapr.Endpoint.{endpoint_from_string}
use yapr.Errcode.{failure, coded, err_no_custom_route}
use yapr.Tests.{alpha}
use yapr.Example.Server.{Response, write_loop}
use yapr.Example.Process.{request_sent}
use yapr.Example.Process.Broken.{lesser, in_flight_of, counter_of, write_loop-in_flight}
use yapr.Go.{ok, panic, nil_dereference}
use yapr.Sdk.Server.{YaprSdk, on_request_received}
use yapr.Sdk.Server.Counters.{
  Task, counter_key, Reporting, Event, no_reports, started, check_update, timer_fired,
  response_sent, counter_loaded, report_rps, take_at, serve_event, run_events, Server,
}
use yapr.Sdk.Server.Counters.Counted.{tasks_of, last_report}
use yapr.Sdk.Server.Counters.Told.{run_events-last_report}
use yapr.Sdk.Server.Counters.Turns.{turns}
use yapr.Sdk.Server.Counters.Settled.{turns-last_report}
use yapr.Sdk.Server.Counters.Malformed.{malformed_least_request}

abbrev quiet : YaprSdk
quiet = record {
  endpoints = [];
  endpoints_by_service = [];
  routing_table = [];
  listening = false;
  notices = [];
}

abbrev least : String → Dict String String
least endpoint =
    ("yapr-strategy", "least_request")
    ∷ ("yapr-selector", "room")
    ∷ ("yapr-endpoint", endpoint)
    ∷ []

abbrev comes : String → Event
comes endpoint = Event.request (failure (coded err_no_custom_route)) (some none) (least endpoint)

abbrev place : String
place = "10.0.0.1#pod-a#8080"

abbrev room : Task
room = record { selector = "room"; raw_endpoint = place }

-- Two requests have come, one goroutine waits, and one call of `checkUpdate` is to be made.
abbrev busy : Reporting
busy = record no_reports {
  request_counter = (counter_key room, 2) ∷ [];
  report_mark = (counter_key room, tt) ∷ [];
  in_flight = room ∷ room ∷ [];
  checks = room ∷ [];
  timers = room ∷ [];
}

-- Two requests come, and the first is answered before the report.
abbrev history : List Event
history =
    comes place
    ∷ Event.checks_update 0
    ∷ comes place
    ∷ Event.checks_update 0
    ∷ Event.sends 0
    ∷ Event.checks_update 0
    ∷ Event.fires 0
    ∷ Event.reads 0
    ∷ Event.tells 0
    ∷ []

abbrev told_once : Reporting
told_once = record no_reports {
  request_counter = (counter_key room, 1) ∷ [];
  in_flight = room ∷ [];
  reports = record { task = room; endpoint = alpha; rps = 1 } ∷ [];
}

run_events-last_report_example :
    last_report (counter_key room) told_once.reports
    ≡ tasks_of (counter_key room) told_once.in_flight % 2 ^ 32
unfolding run_events serve_event on_request_received started response_sent check_update timer_fired
    counter_loaded report_rps take_at lookup insert delete endpoint_from_string
run_events-last_report_example =
    run_events-last_report quiet history (quiet, told_once) (counter_key room)
      (tt, (tt, (tt, (tt, (tt, (tt, (tt, (tt, (refl, tt))))))))) refl refl refl refl refl

turns-last_report_example :
    (r' : Reporting) × (run_events (quiet, busy) (turns busy) ≡ ok (quiet, r'))
    × (r'.in_flight ≡ busy.in_flight)
    × ((key : String) → last_report key r'.reports ≡ tasks_of key busy.in_flight % 2 ^ 32)
unfolding run_events serve_event on_request_received started check_update take_at lookup insert
    endpoint_from_string
turns-last_report_example =
    turns-last_report quiet quiet (comes place ∷ Event.checks_update 0 ∷ comes place ∷ []) busy
      (tt, (tt, (tt, tt))) refl ((alpha, refl), tt) ((alpha, refl), tt) tt tt

-- Two requests come, the counter is loaded after each, and the reports arrive in the other order.
abbrev late : List Event
late =
    comes place
    ∷ Event.checks_update 0
    ∷ Event.fires 0
    ∷ Event.reads 0
    ∷ comes place
    ∷ Event.checks_update 0
    ∷ Event.fires 0
    ∷ Event.reads 0
    ∷ Event.tells 1
    ∷ Event.tells 0
    ∷ []

-- Two requests are in flight, the last report is 1, and no goroutine is left.
late_report :
    run_events (quiet, no_reports) late
    ≡ ok (
      quiet,
      record no_reports {
        request_counter = (counter_key room, 2) ∷ [];
        in_flight = room ∷ room ∷ [];
        reports =
            record { task = room; endpoint = alpha; rps = 1 }
            ∷ record { task = room; endpoint = alpha; rps = 2 }
            ∷ [];
      },
    )
unfolding run_events serve_event on_request_received started check_update timer_fired counter_loaded
    report_rps take_at lookup insert delete endpoint_from_string
late_report = refl

malformed_least_request_example :
    run_events
      (quiet, no_reports)
      (comes "nowhere" ∷ Event.checks_update 0 ∷ Event.fires 0 ∷ Event.reads 0 ∷ Event.tells 0 ∷ [])
    ≡ panic nil_dereference
unfolding lookup endpoint_from_string
malformed_least_request_example =
    malformed_least_request quiet no_reports (least "nowhere") (failure (coded err_no_custom_route))
      none refl refl refl refl refl refl refl

abbrev answer : ℕ → Response Server
answer n = record { id = n; content = []; sent = some (request_sent room) }

-- The second response cannot be written.
write_loop-in_flight_example :
    (in_flight_of room (write_loop 1 (answer 1 ∷ answer 2 ∷ []) (quiet, busy)).1
        + lesser 1 (length (answer 1 ∷ answer 2 ∷ []))
      ≡ in_flight_of room (quiet, busy))
    × (counter_of room (write_loop 1 (answer 1 ∷ answer 2 ∷ []) (quiet, busy)).1
        ≡ in_flight_of room (write_loop 1 (answer 1 ∷ answer 2 ∷ []) (quiet, busy)).1 % 2 ^ 32)
unfolding tasks_of lookup
write_loop-in_flight_example =
    write_loop-in_flight 1 (answer 1 ∷ answer 2 ∷ []) (quiet, busy) room (refl, (refl, tt))
      (omega arith) refl
