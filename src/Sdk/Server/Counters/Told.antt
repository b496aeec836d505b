-- ===== src/Sdk/Server/Counters/Told.antt =====
-- Where the reports arrive in the order in which the counter was loaded, the last one of a key is the
-- number of its requests.
use mathlib.Core.Path.{subst}
use yapr.Prelude.{
  ℕ, ◌+◌, ◌%◌, ◌^◌, String, List, [], ◌∷◌, is_some, ◌==◌, string_eq, if◌then◌else◌, ◌≡◌, refl, ap,
  All, inl, inr, arith, Option-cases,
}
use yapr.Prelude.Dict.{lookup}
use yapr.Endpoint.{endpoint_from_string}
use yapr.Go.{Go, ok, ◌>>=◌, >>=-eq-ok, ok_injective}
use yapr.Sdk.Server.{YaprSdk, on_request_received}
use yapr.Sdk.Server.Counters.{
  Task, counter_key, Reporting, Load, report_rps, take_at, Event, at_place, Server, serve_event,
  run_events, no_reports,
}
use yapr.Sdk.Server.Counters.Counted.{
  tasks_of, last_report, last_load, InOrder, take_at-tasks_of, IsCounted, response_sent-IsCounted,
  check_update-IsCounted, timer_fired-IsCounted, counter_loaded-IsCounted, report_rps-IsCounted,
  counted_request-IsCounted,
}

-- One goroutine goes on at a place of its list.
at_place-IsCounted :
    (y : YaprSdk) (r : Reporting) (s' : Server) (tasks : List Task) (i : ℕ)
    (go_on : Task → List Task → Go Reporting) (key : String)
    → IsCounted r key
    → ((t : Task) (others : List Task) (r' : Reporting)
        → tasks_of key tasks ≡ (if counter_key t == key then 1 else 0) + tasks_of key others
        → go_on t others ≡ ok r'
        → IsCounted r' key)
    → (at_place r go_on (take_at tasks i) >>= λ r'. ok (y, r')) ≡ ok s'
    → IsCounted s'.1 key
at_place-IsCounted y r s' tasks i go_on key counted each done =
    let (r', went, same) = >>=-eq-ok (at_place r go_on (take_at tasks i)) _ done in
    subst (λ (t : Server). IsCounted t.1 key) (ok_injective same)
      (elim (Option-cases (take_at tasks i)) [
        | inl out ↦ subst (λ s. IsCounted s key) (ok_injective (rw out at went)) counted
        | inr ((t, others), is) ↦
            each t others r' (take_at-tasks_of tasks i t others key is) (rw is at went)
      ])

pub serve_event-IsCounted :
    (s s' : Server) (e : Event) (key : String)
    → InOrder e
    → IsCounted s.1 key
    → serve_event s e ≡ ok s'
    → IsCounted s'.1 key
unfolding serve_event report_rps take_at
serve_event-IsCounted (y, r) s' (Event.request stored found headers) key ordered counted done =
    subst (λ (t : Server). IsCounted t.1 key) (ok_injective done)
      (counted_request-IsCounted r headers (on_request_received stored (is_some found) y headers).1
        found key counted)
serve_event-IsCounted (y, r) s' (Event.sends i) key ordered counted done =
    at_place-IsCounted y r s' r.in_flight i _ key counted
      (λ t others r' from went.
        subst (λ (q : Reporting). IsCounted q key) (ok_injective went)
          (response_sent-IsCounted r t key counted others from))
      done
serve_event-IsCounted (y, r) s' (Event.checks_update i) key ordered counted done =
    at_place-IsCounted y r s' r.checks i _ key counted
      (λ t others r' from went.
        subst (λ (q : Reporting). IsCounted q key) (ok_injective went)
          (check_update-IsCounted r t key counted others from))
      done
serve_event-IsCounted (y, r) s' (Event.fires i) key ordered counted done =
    at_place-IsCounted y r s' r.timers i _ key counted
      (λ t others r' from went.
        subst (λ (q : Reporting). IsCounted q key) (ok_injective went)
          (timer_fired-IsCounted r t key counted others from))
      done
serve_event-IsCounted (y, r) s' (Event.reads i) key ordered counted done =
    at_place-IsCounted y r s' r.readers i _ key counted
      (λ t others r' from went.
        subst (λ (q : Reporting). IsCounted q key) (ok_injective went)
          (counter_loaded-IsCounted r t key counted others from))
      done
serve_event-IsCounted (y, r) s' (Event.tells i) key ordered counted done =
    go r.loads refl (rw ordered at done)
  where
    go :
        (ls : List Load)
        → r.loads ≡ ls
        → (at_place r (λ l others. report_rps r l others) (take_at ls 0) >>= λ r'. ok (y, r'))
          ≡ ok s'
        → IsCounted s'.1 key
    go [] is done = subst (λ (t : Server). IsCounted t.1 key) (ok_injective done) counted
    go (l ∷ others) is done =
        let (r', went, same) = >>=-eq-ok (report_rps r l others) _ done in
        subst (λ (t : Server). IsCounted t.1 key) (ok_injective same)
          (report_rps-IsCounted r key l others (endpoint_from_string l.task.raw_endpoint) r' counted
            is went)

run_events-IsCounted :
    (s s' : Server) (es : List Event) (key : String)
    → All InOrder es
    → IsCounted s.1 key
    → run_events s es ≡ ok s'
    → IsCounted s'.1 key
unfolding run_events
run_events-IsCounted s s' [] key ordered counted done =
    subst (λ (t : Server). IsCounted t.1 key) (ok_injective done) counted
run_events-IsCounted s s' (e ∷ es) key (first_ordered, ordered) counted done =
    let (mid, first, later) = >>=-eq-ok (serve_event s e) _ done in
    run_events-IsCounted mid s' es key ordered
      (serve_event-IsCounted s mid e key first_ordered counted first) later

no_reports-IsCounted : (key : String) → IsCounted no_reports key
unfolding tasks_of last_report last_load lookup
no_reports-IsCounted key = ground arith

-- Let a server that starts without requests go through any requests, responses and steps of its
-- goroutines, without a panic, in any order but one: the store handles the reports in the order in
-- which the counters were loaded. Where no call of `checkUpdate` and no goroutine that is to report
-- are left, the last report that was made under a key, 0 before the first, is the number of the key's
-- requests whose responses are still to be sent, modulo 2 ^ 32.
pub run_events-last_report :
    (y : YaprSdk) (es : List Event) (s : Server) (key : String)
    → All InOrder es
    → run_events (y, no_reports) es ≡ ok s
    → s.1.checks ≡ []
    → s.1.timers ≡ []
    → s.1.readers ≡ []
    → s.1.loads ≡ []
    → last_report key s.1.reports ≡ tasks_of key s.1.in_flight % 2 ^ 32
unfolding tasks_of last_load
run_events-last_report y es s key ordered done no_checks no_timers no_readers no_loads =
    let counted =
      run_events-IsCounted (y, no_reports) s es key ordered (no_reports-IsCounted key) done in
    ground (
      arith,
      counted.flights,
      counted.looked,
      ap (tasks_of key) no_checks,
      ap (tasks_of key) no_timers,
      ap (tasks_of key) no_readers,
      ap (λ ls. last_load key ls (last_report key s.1.reports)) no_loads,
    )
