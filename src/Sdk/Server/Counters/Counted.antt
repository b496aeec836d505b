-- ===== src/Sdk/Server/Counters/Counted.antt =====
-- What one operation of the counters keeps of the number of requests and of what was loaded last.
use mathlib.Core.Path.{subst}
use yapr.Prelude.{
  ℕ, zero, suc, ◌+◌, ◌-◌, ◌%◌, ◌^◌, ◌<◌, String, List, [], ◌∷◌, ◌++◌, Option, none, some, ◌==◌,
  ==_iff, string_eq, if◌then◌else◌, ◌≡◌, refl, ◌⊎◌, inl, inr, arith, Bool-cases, Option-cases,
}
use yapr.Prelude.Dict.{Dict, has, lookup-insert, lookup-delete}
use yapr.Endpoint.{Endpoint}
use yapr.Errcode.{Error}
use yapr.Go.{ok, ok_injective}
use yapr.Sdk.Server.Counters.{
  Task, counter_key, Report, Reporting, count_of, started, response_sent, check_update, timer_fired,
  Load, counter_loaded, rps_told, take_at, should_report, task_of, counted_request, Event,
}

-- how many of the tasks have a key
unfoldable pub tasks_of : String → List Task → ℕ
tasks_of key [] = 0
tasks_of key (t ∷ ts) = (if counter_key t == key then 1 else 0) + tasks_of key ts

-- the number of the last report of a key; before the first one, nothing is known of it
unfoldable pub last_report : String → List Report → ℕ
last_report key [] = 0
last_report key (r ∷ rs) =
    let former = last_report key rs in if counter_key r.task == key then r.rps else former

-- the number that is the last one once the loads are reported in their order, after a former one
unfoldable pub last_load : String → List Load → ℕ → ℕ
last_load key [] former = former
last_load key (l ∷ ls) former =
    last_load key ls (if counter_key l.task == key then l.rps else former)

-- The store handles the reports in the order in which the counters were loaded.
abbrev pub InOrder : Event → Type 0
InOrder (Event.request stored found headers) = Unit
InOrder (Event.sends i) = Unit
InOrder (Event.checks_update i) = Unit
InOrder (Event.fires i) = Unit
InOrder (Event.reads i) = Unit
InOrder (Event.tells i) = i ≡ 0

pub last_load-append :
    (key : String) (ls : List Load) (l : Load) (former : ℕ)
    → last_load key (ls ++ l ∷ []) former
      ≡ (if counter_key l.task == key then l.rps else last_load key ls former)
unfolding last_load
last_load-append key [] l former = refl
last_load-append key (k ∷ ls) l former =
    last_load-append key ls l (if counter_key k.task == key then k.rps else former)

-- of a key
pub record IsCounted (r : Reporting) (key : String) : Type 0 where
  -- the counter is the number of requests in flight, in 32 bits
  pub flights : count_of r key ≡ tasks_of key r.in_flight % 2 ^ 32
  -- one goroutine waits if the mark is set, and none if not
  pub marked : tasks_of key r.timers ≡ (if has key r.report_mark then 1 else 0)
  -- a goroutine has still to look at the counter, or what was loaded last is up to date
  pub looked :
      (0 < tasks_of key r.checks + tasks_of key r.timers + tasks_of key r.readers)
      ⊎ (last_load key r.loads (last_report key r.reports) ≡ count_of r key)

pub take_at-tasks_of :
    (ts : List Task) (i : ℕ) (t : Task) (others : List Task) (key : String)
    → take_at ts i ≡ some (t, others)
    → tasks_of key ts ≡ (if counter_key t == key then 1 else 0) + tasks_of key others
unfolding take_at tasks_of
take_at-tasks_of [] i t others key h = cc
take_at-tasks_of (u ∷ ts) zero t others key h = ground arith
take_at-tasks_of (u ∷ ts) (suc i) t others key h = elim (Option-cases (take_at ts i)) [
  | inl out ↦ absurd (ground (arith, rw out at h))
  | inr ((v, vs), is) ↦
      let taken : some (v, u ∷ vs) ≡ some (t, others) = rw is at h in
      ground (arith, take_at-tasks_of ts i v vs key is, taken)
]

module _ (r : Reporting) (t : Task) (key : String) (counted : IsCounted r key) where
  pub started-IsCounted : IsCounted (started r t) key
  unfolding started tasks_of
  started-IsCounted = ground (
    arith,
    counted.flights,
    counted.marked,
    counted.looked,
    lookup-insert (counter_key t) key ((count_of r (counter_key t) + 1) % 2 ^ 32) r.request_counter,
    ==_iff (counter_key t) key,
  )

  module _ (others : List Task) where
    pub response_sent-IsCounted :
        tasks_of key r.in_flight ≡ (if counter_key t == key then 1 else 0) + tasks_of key others
        → IsCounted (response_sent r t others) key
    unfolding response_sent tasks_of
    response_sent-IsCounted from = ground (
      arith,
      counted.flights,
      counted.marked,
      counted.looked,
      lookup-insert (counter_key t) key ((count_of r (counter_key t) + 2 ^ 32 - 1) % 2 ^ 32)
          r.request_counter,
      ==_iff (counter_key t) key,
    )

    pub check_update-IsCounted :
        tasks_of key r.checks ≡ (if counter_key t == key then 1 else 0) + tasks_of key others
        → IsCounted (check_update r t others) key
    unfolding check_update tasks_of
    check_update-IsCounted from = ground (
      arith,
      counted.flights,
      counted.marked,
      counted.looked,
      lookup-insert (counter_key t) key tt r.report_mark,
      ==_iff (counter_key t) key,
    )

    pub timer_fired-IsCounted :
        tasks_of key r.timers ≡ (if counter_key t == key then 1 else 0) + tasks_of key others
        → IsCounted (timer_fired r t others) key
    unfolding timer_fired tasks_of
    timer_fired-IsCounted from = ground (
      arith,
      counted.flights,
      counted.marked,
      counted.looked,
      lookup-delete (counter_key t) key r.report_mark,
      ==_iff (counter_key t) key,
    )

    pub counter_loaded-IsCounted :
        tasks_of key r.readers ≡ (if counter_key t == key then 1 else 0) + tasks_of key others
        → IsCounted (counter_loaded r t others) key
    unfolding counter_loaded
    counter_loaded-IsCounted from =
        let l : Load = record { task = t; rps = count_of r (counter_key t) } in
        ground (
          arith,
          counted.flights,
          counted.marked,
          counted.looked,
          last_load-append key r.loads l (last_report key r.reports),
          ==_iff (counter_key t) key,
        )

pub report_rps-IsCounted :
    (r : Reporting) (key : String) (l : Load) (others : List Load) (o : Option Endpoint)
    (r' : Reporting)
    → IsCounted r key
    → r.loads ≡ l ∷ others
    → rps_told r l others o ≡ ok r'
    → IsCounted r' key
unfolding last_load last_report
report_rps-IsCounted r key l others none r' counted is done = cc
report_rps-IsCounted r key l others (some e) r' counted is done =
    subst (λ s. IsCounted s key) (ok_injective done)
      (record {
        flights = counted.flights;
        marked = counted.marked;
        looked = rw is at counted.looked;
      })

pub counted_request-IsCounted :
    (r : Reporting) (headers : Dict String String) (err : Option Error) (found : Option (Option ℕ))
    (key : String)
    → IsCounted r key
    → IsCounted (counted_request r headers err found) key
counted_request-IsCounted r headers (some err) found key counted = counted
counted_request-IsCounted r headers none none key counted = counted
counted_request-IsCounted r headers none (some m) key counted =
    elim (Bool-cases (should_report m headers)) [
      | inl yes' ↦ rw yes' (started-IsCounted r (task_of headers) key counted)
      | inr no' ↦ rw no' counted
    ]
