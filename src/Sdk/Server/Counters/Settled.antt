-- ===== src/Sdk/Server/Counters/Settled.antt =====
-- The goroutines of the counters come to an end, and what they report then is right.
use yapr.Prelude.{
  ◌+◌, ◌%◌, ◌^◌, String, string_eq, List, [], ◌∷◌, ◌++◌, ◌≡◌, refl, ap, ◌∙◌, arith, length, All,
}
use yapr.Go.{ok}
use yapr.Sdk.Server.{YaprSdk}
use yapr.Sdk.Server.Counters.{Task, Reporting, Event, run_events, no_reports}
use yapr.Sdk.Server.Counters.Counted.{tasks_of, last_report, InOrder}
use yapr.Sdk.Server.Counters.Told.{run_events-last_report}
use yapr.Sdk.Server.Counters.Turns.{
  Readable, ReadableLoad, repeat, turns, append-All, turns-InOrder, run_events-append, IsSettling,
  run_events-repeat, check_turn, timer_turn, reader_turn, load_turn,
}

none_of : {A : Type 0} (ts : List A) → length ts ≡ 0 → ts ≡ []
none_of [] h = refl
none_of (t ∷ ts) h = absurd (omega arith)

-- Let a server be at a state that it reaches from one without requests, with the reports
-- handled in the order in which the counters were loaded, and let the endpoints of all tasks of its
-- goroutines be readable. Then the goroutines alone can go on to a state that has the same requests in
-- flight, and where the last report under each key is the number of the key's requests whose responses
-- are still to be sent, modulo 2 ^ 32.
pub turns-last_report :
    (y y' : YaprSdk) (es : List Event) (r : Reporting)
    → All InOrder es
    → run_events (y, no_reports) es ≡ ok (y', r)
    → All Readable r.checks
    → All Readable r.timers
    → All Readable r.readers
    → All ReadableLoad r.loads
    → (r' : Reporting) × (run_events (y', r) (turns r) ≡ ok (y', r'))
      × (r'.in_flight ≡ r.in_flight)
      × ((key : String) → last_report key r'.reports ≡ tasks_of key r.in_flight % 2 ^ 32)
unfolding turns
turns-last_report y y' es r ordered done checks_readable timers_readable readers_readable
      loads_readable =
    let most_timers = length r.checks + length r.timers in
    let most = most_timers + length r.readers in
    let most_loads = most + length r.loads in
    let start : IsSettling r.in_flight most_timers most most_loads r = record {
      checks_readable = checks_readable;
      timers_readable = timers_readable;
      readers_readable = readers_readable;
      loads_readable = loads_readable;
      same_flights = refl;
      few_timers = omega arith;
      few_readers = omega arith;
      few_loads = omega arith;
    } in
    let (r₁, run₁, kept₁, no_checks) =
      run_events-repeat (λ q. length q.checks) (Event.checks_update 0) y'
        (λ q kept. check_turn r.in_flight most_timers most most_loads y' q.checks q refl kept)
        (length r.checks) r (omega arith) start in
    let (r₂, run₂, kept₂, no_timers) =
      run_events-repeat (λ q. length q.timers) (Event.fires 0) y'
        (λ q kept. timer_turn r.in_flight most_timers most most_loads y' q.timers q refl kept)
        most_timers r₁ (omega (arith, kept₁.few_timers)) (kept₁, no_checks) in
    let (r₃, run₃, kept₃, no_readers) =
      run_events-repeat (λ q. length q.readers) (Event.reads 0) y'
        (λ q kept. reader_turn r.in_flight most_timers most most_loads y' q.readers q refl kept)
        most r₂ (omega (arith, kept₂.0.few_readers)) (kept₂.0, kept₂.1, no_timers) in
    let (r₄, run₄, kept₄, no_loads) =
      run_events-repeat (λ q. length q.loads) (Event.tells 0) y'
        (λ q kept. load_turn r.in_flight most_timers most most_loads y' q.loads q refl kept)
        most_loads r₃ (omega (arith, kept₃.0.few_loads)) (kept₃.0, kept₃.1, kept₃.2, no_readers) in
    let behind₃ = repeat most_loads (Event.tells 0) in
    let behind₂ = repeat most (Event.reads 0) ++ behind₃ in
    let behind = repeat most_timers (Event.fires 0) ++ behind₂ in
    let went : run_events (y', r) (turns r) ≡ ok (y', r₄) =
      run_events-append (y', r) (repeat (length r.checks) (Event.checks_update 0)) behind
      ∙ rw run₁ (
          run_events-append (y', r₁) (repeat most_timers (Event.fires 0)) behind₂
          ∙ rw run₂
              (run_events-append (y', r₂) (repeat most (Event.reads 0)) behind₃ ∙ rw run₃ run₄)) in
    let whole : run_events (y, no_reports) (es ++ turns r) ≡ ok (y', r₄) =
      run_events-append (y, no_reports) es (turns r) ∙ rw done went in
    (
      r₄,
      went,
      kept₄.0.same_flights,
      λ key.
          run_events-last_report y (es ++ turns r) (y', r₄) key
            (append-All InOrder es (turns r) ordered (turns-InOrder r)) whole
            (none_of r₄.checks kept₄.1) (none_of r₄.timers kept₄.2) (none_of r₄.readers kept₄.3)
            (none_of r₄.loads no_loads)
          ∙ ap (λ (ts : List Task). tasks_of key ts % 2 ^ 32) kept₄.0.same_flights,
    )
