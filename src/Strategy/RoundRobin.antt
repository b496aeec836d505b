-- ===== src/Strategy/RoundRobin.antt =====
-- pkg/yapr/core/strategy/impl/round_robin.go. `Select` is one step here: two goroutines that call
-- it at once can both read the counter after both have added to it.
use native.Mathlib.Nat.{mod-lt, mod-eq_of_lt}
use yapr.Prelude.{
  ℕ, suc, ◌+◌, ◌%◌, ◌^◌, ◌<◌, ◌≡◌, ◌∙◌, false, List, [], arith, length, get_elem?, get_elem?-lt,
  ◌==◌, nat_eq, if◌then◌else◌,
}
use yapr.Prelude.Dict.{keys}
use yapr.Endpoint.{Endpoint}
use yapr.Errcode.{err_no_endpoint_available}
use yapr.Go.{Go, ok, index_out_of_range, ◌>>=◌, or_panic}
use yapr.Strategy.{Candidates, Selected, selected, failed}
use yapr.Strategy.Pick.{outcome, is_endpoint, is_selected-outcome}
use yapr.Strategy.Count.{count_ext, count-mod}
use yapr.Strategy.Trace.{
  trace, times, occurrences, results, times-results, trace-results, count-get_elem?,
}

pub record RoundRobin : Type 0 where
  pub endpoints : List Endpoint
  pub last_idx : ℕ

abbrev pub build : RoundRobin
build = record { endpoints = []; last_idx = 0 }

-- `&r.endpoints[i]`
abbrev pub index : List Endpoint → ℕ → Go Endpoint
index es i = or_panic (get_elem? es i) index_out_of_range

unfoldable pub select : RoundRobin → Go (RoundRobin × Selected)
select r =
    let size = length r.endpoints % 2 ^ 32 in
    let last = (r.last_idx + 1) % 2 ^ 32 in
    let found = (do
      e ← index r.endpoints (last % size)
      ok (record r { last_idx = last }, selected e)) in
    if size == 0 then ok (r, failed err_no_endpoint_available) else found

unfoldable pub update : RoundRobin → Candidates → RoundRobin
update r endpoints = record r { endpoints = keys endpoints }

abbrev at : List Endpoint → ℕ → Selected
at es i = outcome (get_elem? es (i % length es))

abbrev state : List Endpoint → ℕ → RoundRobin
state es l = record { endpoints = es; last_idx = l }

select-state :
    (es : List Endpoint)
    → 0 < length es
    → length es < 2 ^ 32
    → (l : ℕ) → suc l < 2 ^ 32
    → select (state es l) ≡ ok (state es (suc l), at es (suc l))
unfolding select
select-state es some_endpoint few l h =
    let (e, hit) = get_elem?-lt es (suc l % length es) (mod-lt (suc l) some_endpoint) in
    let size : length es % 2 ^ 32 ≡ length es = mod-eq_of_lt few in
    let next : (l + 1) % 2 ^ 32 ≡ suc l = omega arith in
    let nonzero : (length es == 0) ≡ false = ground arith in rw (size, next, nonzero, hit)

-- Let 0 < n < 2^32 endpoints be given, and let the counter stay below 2^32 for the next n
-- selections. Then none of these panics or fails, and each endpoint is selected as often as it
-- stands in the list: once, if the endpoints are distinct.
pub select-fair :
    (r : RoundRobin) (d : Endpoint)
    → 0 < length r.endpoints
    → r.last_idx + length r.endpoints < 2 ^ 32
    → (rs : List Selected) × (trace select (length r.endpoints) r ≡ ok rs)
      × (times d rs ≡ occurrences d r.endpoints)
select-fair r d some_endpoint room =
    let es = r.endpoints in
    let n = length es in
    (
      results (at es) (suc r.last_idx) n,
      trace-results select (state es) (at es) (2 ^ 32) (select-state es some_endpoint (omega arith))
          n r.last_idx room,
      times-results d (at es) (suc r.last_idx) n
          ∙ count_ext _ (λ i. is_endpoint d (get_elem? es (i % n))) (suc r.last_idx) n
              (λ i _ _. is_selected-outcome d _)
          ∙ count-mod (λ i. is_endpoint d (get_elem? es i)) n (suc r.last_idx) some_endpoint
          ∙ count-get_elem? d es,
    )
