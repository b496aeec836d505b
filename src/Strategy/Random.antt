-- ===== src/Strategy/Random.antt =====
-- pkg/yapr/core/strategy/impl/random.go. The number that `rand.Intn(size)` returns is an argument.
use yapr.Prelude.{ℕ, List, length, ◌==◌, nat_eq, if◌then◌else◌}
use yapr.Prelude.Dict.{keys}
use yapr.Endpoint.{Endpoint}
use yapr.Errcode.{err_no_endpoint_available}
use yapr.Go.{Go, ok, ◌>>=◌}
use yapr.Strategy.{Candidates, Selected, selected, failed}
use yapr.Strategy.RoundRobin.{index}

pub record Random : Type 0 where
  pub endpoints : List Endpoint

unfoldable pub select : Random → ℕ → Go Selected
select r intn =
    let found = (do e ← index r.endpoints intn; ok (selected e)) in
    if length r.endpoints == 0 then ok (failed err_no_endpoint_available) else found

unfoldable pub update : Candidates → Random
update endpoints = record { endpoints = keys endpoints }
