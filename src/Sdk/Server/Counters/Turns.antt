-- ===== src/Sdk/Server/Counters/Turns.antt =====
-- One turn of a goroutine of the counters, and what it leaves to do.
use mathlib.Core.Path.{subst, fun_ext}
use yapr.Prelude.{
  ℕ, zero, suc, ◌+◌, ◌-◌, ◌≤◌, string_eq, List, [], ◌∷◌, ◌++◌, some, ◌≡◌, refl, sym, ap, ◌∙◌, inl,
  inr, arith, length, length-append, All, Bool-cases,
}
use yapr.Prelude.Dict.{has}
use yapr.Endpoint.{Endpoint, endpoint_from_string}
use yapr.Go.{ok, ◌>>=◌, >>=_assoc}
use yapr.Sdk.Server.{YaprSdk}
use yapr.Sdk.Server.Counters.{
  Task, counter_key, Reporting, count_of, Load, check_update, timer_fired, counter_loaded,
  report_rps, take_at, Event, Server, serve_event, run_events,
}
use yapr.Sdk.Server.Counters.Counted.{InOrder}

-- The endpoint of the task can be read, so that its report does not panic.
abbrev pub Readable : Task → Type 0
Readable t = (e : Endpoint) × (endpoint_from_string t.raw_endpoint ≡ some e)

abbrev pub ReadableLoad : Load → Type 0
ReadableLoad l = Readable l.task

unfoldable pub repeat : ℕ → Event → List Event
repeat zero e = []
repeat (suc n) e = e ∷ repeat n e

-- The turns of the goroutines of a state, in the order of what they have left to do.
unfoldable pub turns : Reporting → List Event
turns r =
    let checks = length r.checks in
    let timers = checks + length r.timers in
    let readers = timers + length r.readers in
    let loads = readers + length r.loads in
    repeat checks (Event.checks_update 0)
    ++ (repeat timers (Event.fires 0)
        ++ (repeat readers (Event.reads 0) ++ repeat loads (Event.tells 0)))

repeat-InOrder : (n : ℕ) (e : Event) → InOrder e → All InOrder (repeat n e)
unfolding repeat
repeat-InOrder zero e ordered = tt
repeat-InOrder (suc n) e ordered = (ordered, repeat-InOrder n e ordered)

pub append-All :
    {A : Type 0} (P : A → Type 0) (xs ys : List A) → All P xs → All P ys → All P (xs ++ ys)
append-All P [] ys p q = q
append-All P (x ∷ xs) ys p q = (p.0, append-All P xs ys p.1 q)

pub turns-InOrder : (r : Reporting) → All InOrder (turns r)
unfolding turns
turns-InOrder r = append-All InOrder (repeat _ (Event.checks_update 0)) _ (repeat-InOrder _ _ tt) (
    append-All InOrder (repeat _ (Event.fires 0)) _ (repeat-InOrder _ _ tt) (
      append-All InOrder (repeat _ (Event.reads 0)) _ (repeat-InOrder _ _ tt)
        (repeat-InOrder _ _ refl)))

pub run_events-append :
    (s : Server) (es fs : List Event)
    → run_events s (es ++ fs) ≡ (run_events s es >>= λ s'. run_events s' fs)
unfolding run_events
run_events-append s [] fs = refl
run_events-append s (e ∷ es) fs =
    ap (λ k. serve_event s e >>= k) (fun_ext (λ s'. run_events-append s' es fs))
    ∙ sym (>>=_assoc (serve_event s e) _ _)

-- What the goroutines keep: their tasks can be read, the requests in flight stay, and there are no more
-- timers, readers and loads to come than three numbers.
pub record IsSettling (flights : List Task) (most_timers most_readers most_loads : ℕ)
    (r : Reporting) : Type 0 where
  pub checks_readable : All Readable r.checks
  pub timers_readable : All Readable r.timers
  pub readers_readable : All Readable r.readers
  pub loads_readable : All ReadableLoad r.loads
  pub same_flights : r.in_flight ≡ flights
  pub few_timers : length r.checks + length r.timers ≤ most_timers
  pub few_readers : length r.checks + length r.timers + length r.readers ≤ most_readers
  pub few_loads : length r.checks + length r.timers + length r.readers + length r.loads ≤ most_loads

-- An event that brings a number of goroutines down does so to 0.
module _ {P : Reporting → Type 0} (left : Reporting → ℕ) (e : Event) (y : YaprSdk)
    (each : (r : Reporting)
      → P r
      → (r' : Reporting) × (serve_event (y, r) e ≡ ok (y, r'))
        × P r'
        × (left r' ≤ left r - 1)) where
  pub run_events-repeat :
      (n : ℕ) (r : Reporting)
      → left r ≤ n
      → P r
      → (r' : Reporting) × (run_events (y, r) (repeat n e) ≡ ok (y, r')) × P r' × (left r' ≡ 0)
  unfolding run_events repeat
  run_events-repeat zero r few kept = (r, refl, kept, omega arith)
  run_events-repeat (suc n) r few kept =
      let (r₁, went, kept₁, less) = each r kept in
      let (r₂, later, kept₂, none_left) = run_events-repeat n r₁ (omega arith) kept₁ in
      (r₂, rw went later, kept₂, none_left)

module _ (flights : List Task) (n m k : ℕ) (y : YaprSdk) where
  pub check_turn :
      (cs : List Task) (r : Reporting)
      → r.checks ≡ cs
      → IsSettling flights n m k r
      → (r' : Reporting) × (serve_event (y, r) (Event.checks_update 0) ≡ ok (y, r'))
        × IsSettling flights n m k r'
        × (length r'.checks ≤ length r.checks - 1)
  unfolding serve_event take_at check_update
  check_turn [] r is kept = (r, rw is refl, kept, ground (arith, is))
  check_turn (t ∷ cs) r is kept =
      let readable : All Readable (t ∷ cs) = subst (All Readable) is kept.checks_readable in
      (
        check_update r t cs,
        rw is refl,
        elim (Bool-cases (has (counter_key t) r.report_mark)) [
          | inl set ↦ rw set (record {
            checks_readable = readable.1;
            timers_readable = kept.timers_readable;
            readers_readable = kept.readers_readable;
            loads_readable = kept.loads_readable;
            same_flights = kept.same_flights;
            few_timers = omega (arith, kept.few_timers, ap length is);
            few_readers = omega (arith, kept.few_readers, ap length is);
            few_loads = omega (arith, kept.few_loads, ap length is);
          })
          | inr new ↦ rw new (record {
            checks_readable = readable.1;
            timers_readable = (readable.0, kept.timers_readable);
            readers_readable = kept.readers_readable;
            loads_readable = kept.loads_readable;
            same_flights = kept.same_flights;
            few_timers = omega (arith, kept.few_timers, ap length is);
            few_readers = omega (arith, kept.few_readers, ap length is);
            few_loads = omega (arith, kept.few_loads, ap length is);
          })
        ],
        ground (arith, is),
      )

  pub timer_turn :
      (ts : List Task) (r : Reporting)
      → r.timers ≡ ts
      → IsSettling flights n m k r × (length r.checks ≡ 0)
      → (r' : Reporting) × (serve_event (y, r) (Event.fires 0) ≡ ok (y, r'))
        × (IsSettling flights n m k r' × (length r'.checks ≡ 0))
        × (length r'.timers ≤ length r.timers - 1)
  unfolding serve_event take_at timer_fired
  timer_turn [] r is kept = (r, rw is refl, kept, ground (arith, is))
  timer_turn (t ∷ ts) r is (kept, no_checks) =
      let readable : All Readable (t ∷ ts) = subst (All Readable) is kept.timers_readable in
      (
        timer_fired r t ts,
        rw is refl,
        (
          record {
            checks_readable = kept.checks_readable;
            timers_readable = readable.1;
            readers_readable = (readable.0, kept.readers_readable);
            loads_readable = kept.loads_readable;
            same_flights = kept.same_flights;
            few_timers = omega (arith, kept.few_timers, ap length is);
            few_readers = omega (arith, kept.few_readers, ap length is);
            few_loads = omega (arith, kept.few_loads, ap length is);
          },
          no_checks,
        ),
        ground (arith, is),
      )

  pub reader_turn :
      (rs : List Task) (r : Reporting)
      → r.readers ≡ rs
      → IsSettling flights n m k r × (length r.checks ≡ 0) × (length r.timers ≡ 0)
      → (r' : Reporting) × (serve_event (y, r) (Event.reads 0) ≡ ok (y, r'))
        × (IsSettling flights n m k r' × (length r'.checks ≡ 0) × (length r'.timers ≡ 0))
        × (length r'.readers ≤ length r.readers - 1)
  unfolding serve_event take_at counter_loaded
  reader_turn [] r is kept = (r, rw is refl, kept, ground (arith, is))
  reader_turn (t ∷ rs) r is (kept, no_checks, no_timers) =
      let readable : All Readable (t ∷ rs) = subst (All Readable) is kept.readers_readable in
      let l : Load = record { task = t; rps = count_of r (counter_key t) } in
      (
        counter_loaded r t rs,
        rw is refl,
        (
          record {
            checks_readable = kept.checks_readable;
            timers_readable = kept.timers_readable;
            readers_readable = readable.1;
            loads_readable =
                append-All ReadableLoad r.loads (l ∷ []) kept.loads_readable (readable.0, tt);
            same_flights = kept.same_flights;
            few_timers = kept.few_timers;
            few_readers = omega (arith, kept.few_readers, ap length is);
            few_loads = omega (arith, kept.few_loads, ap length is, length-append r.loads (l ∷ []));
          },
          no_checks,
          no_timers,
        ),
        ground (arith, is),
      )

  pub load_turn :
      (ls : List Load) (r : Reporting)
      → r.loads ≡ ls
      → IsSettling flights n m k r
        × (length r.checks ≡ 0)
        × (length r.timers ≡ 0)
        × (length r.readers ≡ 0)
      → (r' : Reporting) × (serve_event (y, r) (Event.tells 0) ≡ ok (y, r'))
        × (IsSettling flights n m k r'
            × (length r'.checks ≡ 0)
            × (length r'.timers ≡ 0)
            × (length r'.readers ≡ 0))
        × (length r'.loads ≤ length r.loads - 1)
  unfolding serve_event take_at report_rps
  load_turn [] r is kept = (r, rw is refl, kept, ground (arith, is))
  load_turn (l ∷ ls) r is (kept, no_checks, no_timers, no_readers) =
      let readable : All ReadableLoad (l ∷ ls) = subst (All ReadableLoad) is kept.loads_readable in
      let (e, read) = readable.0 in
      (
        record r {
          loads = ls;
          reports = record { task = l.task; endpoint = e; rps = l.rps } ∷ r.reports;
        },
        rw (is, read) refl,
        (
          record {
            checks_readable = kept.checks_readable;
            timers_readable = kept.timers_readable;
            readers_readable = kept.readers_readable;
            loads_readable = readable.1;
            same_flights = kept.same_flights;
            few_timers = kept.few_timers;
            few_readers = kept.few_readers;
            few_loads = omega (arith, kept.few_loads, ap length is);
          },
          no_checks,
          no_timers,
          no_readers,
        ),
        ground (arith, is),
      )
