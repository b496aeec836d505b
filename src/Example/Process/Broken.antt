-- ===== src/Example/Process/Broken.antt =====
-- Requests whose responses cannot be written stay counted.
use yapr.Prelude.{
  ℕ, zero, suc, ◌+◌, ◌-◌, ◌%◌, ◌^◌, ==_refl, ◌≤◌, ◌<◌, string_eq, List, [], ◌∷◌, some, length, ltb,
  if◌then◌else◌, ◌≡◌, arith, All,
}
use yapr.Prelude.Dict.{lookup-insert}
use yapr.Sdk.Server.Counters.{Task, counter_key, count_of, response_sent, Server}
use yapr.Sdk.Server.Counters.Counted.{tasks_of}
use yapr.Example.Server.{Response, write_loop}
use yapr.Example.Process.{removed, request_sent}

abbrev pub lesser : ℕ → ℕ → ℕ
lesser a b = if ltb a b then a else b

tasks_of-removed :
    (t : Task) (ts : List Task)
    → 0 < tasks_of (counter_key t) ts
    → tasks_of (counter_key t) (removed t ts) + 1 ≡ tasks_of (counter_key t) ts
unfolding tasks_of removed
tasks_of-removed t [] some_task = absurd (omega arith)
tasks_of-removed t (u ∷ us) some_task = ground (arith, tasks_of-removed t us)

abbrev pub in_flight_of : Task → Server → ℕ
in_flight_of t s = tasks_of (counter_key t) s.1.in_flight

in_flight_of-request_sent :
    (t : Task) (s : Server)
    → 0 < in_flight_of t s
    → in_flight_of t (request_sent t s) + 1 ≡ in_flight_of t s
unfolding request_sent response_sent
in_flight_of-request_sent t (y, r) some_task = tasks_of-removed t r.in_flight some_task

abbrev pub counter_of : Task → Server → ℕ
counter_of t s = count_of s.1 (counter_key t)

-- A counter that is the number of the requests in flight, in 32 bits, stays so.
counter_of-request_sent :
    (t : Task) (s : Server)
    → 0 < in_flight_of t s
    → counter_of t s ≡ in_flight_of t s % 2 ^ 32
    → counter_of t (request_sent t s) ≡ in_flight_of t (request_sent t s) % 2 ^ 32
unfolding request_sent response_sent
counter_of-request_sent t (y, r) some_task counts = ground (
  arith,
  counts,
  tasks_of-removed t r.in_flight some_task,
  lookup-insert (counter_key t) (counter_key t) ((count_of r (counter_key t) + 2 ^ 32 - 1) % 2 ^ 32)
      r.request_counter,
  ==_refl (counter_key t),
)

-- Let responses to requests of one key that are in flight be written, on a connection that takes a
-- number of them before a write fails, and let the key's counter in `requestCounter` be the number of
-- its requests in flight, modulo 2 ^ 32. Afterwards the requests in flight under the key are fewer by
-- the number that the connection takes, or by the number of the responses if that is less, and the
-- counter is the number of those that are left, modulo 2 ^ 32: a request whose response is not written
-- stays counted.
pub write_loop-in_flight :
    (writes : ℕ) (rs : List (Response Server)) (s : Server) (t : Task)
    → All (λ r. r.sent ≡ some (request_sent t)) rs
    → length rs ≤ in_flight_of t s
    → counter_of t s ≡ in_flight_of t s % 2 ^ 32
    → (in_flight_of t (write_loop writes rs s).1 + lesser writes (length rs) ≡ in_flight_of t s)
      × (counter_of t (write_loop writes rs s).1
          ≡ in_flight_of t (write_loop writes rs s).1 % 2 ^ 32)
unfolding write_loop
write_loop-in_flight writes [] s t counted enough counts = (ground arith, counts)
write_loop-in_flight zero (r ∷ rs) s t counted enough counts = (ground arith, counts)
write_loop-in_flight (suc writes) (r ∷ rs) s t (is, counted) enough counts =
    let one = in_flight_of-request_sent t s (omega arith) in
    let (fewer, right) =
      write_loop-in_flight writes rs (request_sent t s) t counted (omega (arith, one))
        (counter_of-request_sent t s (omega arith) counts) in
    rw is (ground (arith, one, fewer), right)
