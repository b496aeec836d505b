-- ===== src/Sdk/Server/Counters.antt =====
-- The counters of pkg/yapr/core/sdk/server/sdk.go: how `OnRequestReceived` counts the requests that
-- are being served, and reports their number a second later. The goroutines are lists of tasks, and
-- an event is one atomic operation of one of them: the load of a counter and the call of the store
-- that reports it are two events.
pub mod Counted
pub mod Told
pub mod Turns
pub mod Settled
pub mod Malformed
use yapr.Prelude.{
  ℕ, zero, suc, ◌+◌, ◌-◌, ◌%◌, ◌^◌, String, Bool, true, false, ◌||◌, List, [], ◌∷◌, ◌++◌, Option,
  none, some, is_some, or_default, ◌==◌, string_eq, if◌then◌else◌,
}
use yapr.Prelude.Dict.{Dict, lookup, insert, delete, has}
use yapr.Text.{concat}
use yapr.Endpoint.{Endpoint, endpoint_from_string}
use yapr.Errcode.{Error, Result}
use yapr.Go.{Go, ok, panic, nil_dereference, ◌>>=◌}
use yapr.Sdk.Server.{YaprSdk, header, on_request_received}

-- What the goroutines of one request know of it: its selector, and its endpoint as a text.
pub record Task : Type 0 where
  pub selector : String
  pub raw_endpoint : String

abbrev pub counter_key : Task → String
counter_key t = concat t.selector (concat "_" t.raw_endpoint)

-- A counter that a goroutine has loaded, as its argument of `reportRPS`.
pub record Load : Type 0 where
  pub task : Task
  pub rps : ℕ

-- A call `reportRPS(endpoint, selector, rps)`, with the task that makes it.
pub record Report : Type 0 where
  pub task : Task
  pub endpoint : Endpoint
  pub rps : ℕ

-- `requestCounter`, where a counter is the 32 bits of an `int32`, and `leastRequestReportMark`. Then
-- the requests whose `onResponseSent` is still to be called, the calls of `checkUpdate` that are still
-- to be made, the goroutines that wait for a second, those that have deleted their mark, those that
-- have loaded the counter, the first one in front, and the reports so far, the last one in front.
pub record Reporting : Type 0 where
  pub request_counter : Dict String ℕ
  pub report_mark : Dict String (Unit {0})
  pub in_flight : List Task
  pub checks : List Task
  pub timers : List Task
  pub readers : List Task
  pub loads : List Load
  pub reports : List Report

abbrev pub count_of : Reporting → String → ℕ
count_of r key = or_default (lookup key r.request_counter) 0

-- `counter.Add(1)` of a request that is taken
unfoldable pub started : Reporting → Task → Reporting
started r t = record r {
  request_counter =
      insert (counter_key t) ((count_of r (counter_key t) + 1) % 2 ^ 32) r.request_counter;
  in_flight = t ∷ r.in_flight;
  checks = t ∷ r.checks;
}

-- `counter.Add(-1)` of `onResponseSent`; `others` are the requests that remain.
unfoldable pub response_sent : Reporting → Task → List Task → Reporting
response_sent r t others = record r {
  request_counter =
      insert (counter_key t) ((count_of r (counter_key t) + 2 ^ 32 - 1) % 2 ^ 32) r.request_counter;
  in_flight = others;
  checks = t ∷ r.checks;
}

-- `checkUpdate`: a mark that is new starts a goroutine.
unfoldable pub check_update : Reporting → Task → List Task → Reporting
check_update r t others =
    if has (counter_key t) r.report_mark then record r { checks = others } else record r {
      checks = others;
      report_mark = insert (counter_key t) tt r.report_mark;
      timers = t ∷ r.timers;
    }

-- The second is over, and the mark is deleted.
unfoldable pub timer_fired : Reporting → Task → List Task → Reporting
timer_fired r t others = record r {
  timers = others;
  report_mark = delete (counter_key t) r.report_mark;
  readers = t ∷ r.readers;
}

-- `counter.Load()`
unfoldable pub counter_loaded : Reporting → Task → List Task → Reporting
counter_loaded r t others = record r {
  readers = others;
  loads = r.loads ++ record { task = t; rps = count_of r (counter_key t) } ∷ [];
}

abbrev pub rps_told : Reporting → Load → List Load → Option Endpoint → Go Reporting
rps_told r l others none = panic nil_dereference
rps_told r l others (some e) = ok (record r {
  loads = others;
  reports = record { task = l.task; endpoint = e; rps = l.rps } ∷ r.reports;
})

-- `reportRPS` with what was loaded. The store takes the endpoint's text, so that a nil endpoint ends the
-- process.
unfoldable pub report_rps : Reporting → Load → List Load → Go Reporting
report_rps r l others = rps_told r l others (endpoint_from_string l.task.raw_endpoint)

abbrev pub kept_in_front : {A : Type 0} → A → Option (A × List A) → Option (A × List A)
kept_in_front t none = none
kept_in_front t (some (u, us)) = some (u, t ∷ us)

-- the element at a place, and the others
unfoldable pub take_at : {A : Type 0} → List A → ℕ → Option (A × List A)
take_at [] i = none
take_at (t ∷ ts) zero = some (t, ts)
take_at (t ∷ ts) (suc i) = kept_in_front t (take_at ts i)

-- `shouldReportRPS`: the selector has a limit, or its strategy asks for reports.
abbrev pub should_report : Option ℕ → Dict String String → Bool
should_report max_requests headers =
    is_some max_requests || header headers "yapr-strategy" == "least_request"

abbrev pub task_of : Dict String String → Task
task_of headers = record {
  selector = header headers "yapr-selector";
  raw_endpoint = header headers "yapr-endpoint";
}

-- What `OnRequestReceived` counts, from its error and from `MaxRequests` of the selector.
abbrev pub counted_request :
    Reporting → Dict String String → Option Error → Option (Option ℕ) → Reporting
counted_request r headers (some err) found = r
counted_request r headers none none = r
counted_request r headers none (some max_requests) =
    if should_report max_requests headers then started r (task_of headers) else r

-- One step of the server: a request comes, with what the store has for its route and what
-- `GetSelector` finds, or the goroutine at a place in its list goes on.
pub data Event : Type 0 where
  request : Result (Option Endpoint) → Option (Option ℕ) → Dict String String → Event
  sends checks_update fires reads tells : ℕ → Event

abbrev pub at_place :
    {A : Type 0} → Reporting → (A → List A → Go Reporting) → Option (A × List A) → Go Reporting
at_place r go_on none = ok r
at_place r go_on (some (t, others)) = go_on t others

abbrev pub Server : Type 0
Server = YaprSdk × Reporting

unfoldable pub serve_event : Server → Event → Go Server
serve_event (y, r) (request stored found headers) =
    let (y', err) = on_request_received stored (is_some found) y headers in
    ok (y', counted_request r headers err found)
serve_event (y, r) (sends i) =
    at_place r (λ t others. ok (response_sent r t others)) (take_at r.in_flight i) >>= λ r'.
    ok (y, r')
serve_event (y, r) (checks_update i) =
    at_place r (λ t others. ok (check_update r t others)) (take_at r.checks i) >>= λ r'. ok (y, r')
serve_event (y, r) (fires i) =
    at_place r (λ t others. ok (timer_fired r t others)) (take_at r.timers i) >>= λ r'. ok (y, r')
serve_event (y, r) (reads i) =
    at_place r (λ t others. ok (counter_loaded r t others)) (take_at r.readers i) >>= λ r'.
    ok (y, r')
serve_event (y, r) (tells i) =
    at_place r (λ l others. report_rps r l others) (take_at r.loads i) >>= λ r'. ok (y, r')

unfoldable pub run_events : Server → List Event → Go Server
run_events s [] = ok s
run_events s (e ∷ es) = serve_event s e >>= λ s'. run_events s' es

abbrev pub no_reports : Reporting
no_reports = record {
  request_counter = [];
  report_mark = [];
  in_flight = [];
  checks = [];
  timers = [];
  readers = [];
  loads = [];
  reports = [];
}
