-- ===== src/Strategy/WeightedRoundRobin.antt =====
-- pkg/yapr/core/strategy/impl/weighted_round_robin.go. `Select` is one step here, as in
-- `RoundRobin`; the sum of the weights is a uint32 and wraps.
use native.Mathlib.Nat.{mod-lt, mod-eq_of_lt}
use yapr.Prelude.{
  ℕ, suc, ◌+◌, ◌%◌, ◌^◌, ◌<◌, ◌≡◌, ◌∙◌, ap, false, List, [], ◌∷◌, Option, none, some, arith, ◌==◌,
  nat_eq, if◌then◌else◌, or_default,
}
use yapr.Endpoint.{Endpoint}
use yapr.Errcode.{err_no_endpoint_available}
use yapr.Go.{Go, ok, panic, nil_dereference, ◌>>=◌}
use yapr.Types.{weight_of}
use yapr.TreeMap.{TreeMap}
use yapr.Strategy.{Candidates, Selected, selected, failed}
use yapr.Strategy.Pick.{
  Weights, weights_of, weights_of-cons, weight_sum, weight_in, pick, outcome, is_endpoint,
  is_selected-outcome, count-pick,
}
use yapr.Strategy.Count.{count_ext, count-mod}
use yapr.Strategy.Trace.{trace, times, results, times-results, trace-results}
use yapr.Strategy.Weighted.{stage_all, floor-stage_all}

module _ (tree : TreeMap Endpoint) where
  open tree use {Map, new, put, floor}

  pub record WeightedRoundRobin : Type 0 where
    pub weight_stage_to_endpoint : Map
    pub total_weight : ℕ
    pub last_idx : ℕ

  -- the loop of `Update`
  unfoldable pub fill : Map → ℕ → Candidates → Go (Map × ℕ)
  fill m total [] = ok (m, total)
  fill m total ((endpoint, attr) ∷ rest) = do
    weight ← weight_of attr
    fill (put total endpoint m) ((total + or_default weight 1) % 2 ^ 32) rest

  unfoldable pub update : WeightedRoundRobin → Candidates → Go WeightedRoundRobin
  update r endpoints = do
    (m, total) ← fill new 0 endpoints
    ok (record r { weight_stage_to_endpoint = m; total_weight = total })

  -- `rawEndpoint.(types.Endpoint)` panics on nil.
  abbrev endpoint_of : Option (ℕ × Endpoint) → Go Endpoint
  endpoint_of none = panic nil_dereference
  endpoint_of (some (k, endpoint)) = ok endpoint

  unfoldable pub select : WeightedRoundRobin → Go (WeightedRoundRobin × Selected)
  select r =
      let last = (r.last_idx + 1) % 2 ^ 32 in
      let found = do
        endpoint ← endpoint_of (floor (last % r.total_weight) r.weight_stage_to_endpoint)
        ok (record r { last_idx = last }, selected endpoint)
      in if r.total_weight == 0 then ok (r, failed err_no_endpoint_available) else found

  fill_lem :
      (m : Map) (total : ℕ) (c : Candidates) (ws : Weights)
      → weights_of c ≡ ok ws
      → total + weight_sum ws < 2 ^ 32
      → fill m total c ≡ ok (stage_all tree m total ws, total + weight_sum ws)
  unfolding fill weights_of weight_sum stage_all
  fill_lem m total [] [] h small = ground arith
  fill_lem m total [] (w ∷ ws) h small = cc
  fill_lem m total ((e, a) ∷ c) ws h small =
      let (w, rest, read, more, same) = weights_of-cons e a c ws h in
      let sum : weight_sum ws ≡ or_default w 1 + weight_sum rest = ap weight_sum same in
      let next : (total + or_default w 1) % 2 ^ 32 ≡ total + or_default w 1 =
        mod-eq_of_lt (omega arith) in
      rw (same, read, next)
        (fill_lem (put total e m) (total + or_default w 1) c rest more (omega arith)
          ∙ ap (λ t. ok (stage_all tree (put total e m) (total + or_default w 1) rest, t))
              (omega arith))

  abbrev state : Weights → ℕ → WeightedRoundRobin
  state ws l = record {
    total_weight = weight_sum ws;
    weight_stage_to_endpoint = stage_all tree new 0 ws;
    last_idx = l;
  }

  abbrev at : Weights → ℕ → Selected
  at ws i = outcome (pick (i % weight_sum ws) ws)

  select-state :
      (ws : Weights)
      → 0 < weight_sum ws
      → (l : ℕ) → suc l < 2 ^ 32
      → select (state ws l) ≡ ok (state ws (suc l), at ws (suc l))
  unfolding select
  select-state ws positive l h =
      let (e, picked, j, hit) =
        floor-stage_all tree ws (suc l % weight_sum ws) (mod-lt (suc l) positive) in
      let next : (l + 1) % 2 ^ 32 ≡ suc l = omega arith in
      let nonzero : (weight_sum ws == 0) ≡ false = ground arith in rw (nonzero, next, hit, picked)

  update-state :
      (r : WeightedRoundRobin) (c : Candidates) (ws : Weights)
      → weights_of c ≡ ok ws
      → weight_sum ws < 2 ^ 32
      → update r c ≡ ok (state ws r.last_idx)
  unfolding update
  update-state r c ws h small = rw (fill_lem new 0 c ws h (omega arith)) (ground arith)

  -- Let the weights of the candidates be read without a panic, with a positive sum W < 2^32, and let
  -- the counter stay below 2^32 for the next W selections. Then `Update` returns, and of the W
  -- selections that follow none panics or fails, and each endpoint is selected as often as its weight.
  pub select-weighted_fair :
      (r : WeightedRoundRobin) (c : Candidates) (ws : Weights) (d : Endpoint)
      → weights_of c ≡ ok ws
      → 0 < weight_sum ws
      → r.last_idx + weight_sum ws < 2 ^ 32
      → (r' : WeightedRoundRobin) × (update r c ≡ ok r')
        × (rs : List Selected) × (trace select (weight_sum ws) r' ≡ ok rs)
        × (times d rs ≡ weight_in d ws)
  select-weighted_fair r c ws d h positive room =
      let n = weight_sum ws in
      (
        state ws r.last_idx,
        update-state r c ws h (omega arith),
        results (at ws) (suc r.last_idx) n,
        trace-results select (state ws) (at ws) (2 ^ 32) (select-state ws positive) n r.last_idx
            room,
        times-results d (at ws) (suc r.last_idx) n
            ∙ count_ext _ (λ i. is_endpoint d (pick (i % n) ws)) (suc r.last_idx) n
                (λ i _ _. is_selected-outcome d _)
            ∙ count-mod (λ i. is_endpoint d (pick i ws)) n (suc r.last_idx) positive
            ∙ count-pick d ws,
      )
