-- ===== src/Strategy/WeightedRandom.antt =====
-- pkg/yapr/core/strategy/impl/weighted_random.go. `rand.Int()` is the argument `draw`; an `int`
-- holds every sum of weights that a program has memory for.
use native.Mathlib.Nat.{mod-lt, mod-eq_of_lt}
use yapr.Prelude.{
  ℕ, ◌+◌, ◌%◌, ◌≡◌, ◌∙◌, ap, [], ◌∷◌, Option, none, some, arith, ◌==◌, nat_eq, if◌then◌else◌,
  Bool-cases, inl, inr, or_default,
}
use yapr.Endpoint.{Endpoint}
use yapr.Errcode.{err_no_endpoint_available}
use yapr.Go.{Go, ok, ◌>>=◌}
use yapr.Types.{weight_of}
use yapr.TreeMap.{TreeMap}
use yapr.Strategy.{Candidates, Selected, selected, failed}
use yapr.Strategy.Pick.{
  Weights, weights_of, weights_of-cons, weight_sum, weight_in, pick, pick-none, outcome,
  is_endpoint, is_selected, is_selected-outcome, count-pick,
}
use yapr.Strategy.Count.{count, count_ext}
use yapr.Strategy.Weighted.{stage_all, floor-stage_all}

module _ (tree : TreeMap Endpoint) where
  open tree use {Map, new, put, floor}

  pub record WeightedRandom : Type 0 where
    pub total_weight : ℕ
    pub weight_stage_to_endpoint : Map

  -- the loop of `Update`
  unfoldable pub fill : Map → ℕ → Candidates → Go (Map × ℕ)
  fill m total [] = ok (m, total)
  fill m total ((endpoint, attr) ∷ rest) = do
    weight ← weight_of attr
    fill (put total endpoint m) (total + or_default weight 1) rest

  unfoldable pub update : Candidates → Go WeightedRandom
  update endpoints = do
    (m, total) ← fill new 0 endpoints
    ok (record { total_weight = total; weight_stage_to_endpoint = m })

  abbrev pub floor_result : Option (ℕ × Endpoint) → Selected
  floor_result none = failed err_no_endpoint_available
  floor_result (some (k, endpoint)) = selected endpoint

  unfoldable pub select : WeightedRandom → ℕ → Selected
  select r draw =
      if r.total_weight == 0
      then failed err_no_endpoint_available
      else floor_result (floor (draw % r.total_weight) r.weight_stage_to_endpoint)

  fill_lem :
      (m : Map) (total : ℕ) (c : Candidates) (ws : Weights)
      → weights_of c ≡ ok ws
      → fill m total c ≡ ok (stage_all tree m total ws, total + weight_sum ws)
  unfolding fill weights_of weight_sum stage_all
  fill_lem m total [] [] h = ground arith
  fill_lem m total [] (w ∷ ws) h = cc
  fill_lem m total ((e, a) ∷ c) ws h =
      let (w, rest, read, more, same) = weights_of-cons e a c ws h in
      rw same (
        rw read (
          fill_lem (put total e m) (total + or_default w 1) c rest more
          ∙ ap (λ t. ok (stage_all tree (put total e m) (total + or_default w 1) rest, t))
              (omega arith)))

  abbrev built : Weights → WeightedRandom
  built ws = record {
    total_weight = weight_sum ws;
    weight_stage_to_endpoint = stage_all tree new 0 ws;
  }

  pub update_lem : (c : Candidates) (ws : Weights) → weights_of c ≡ ok ws → update c ≡ ok (built ws)
  unfolding update
  update_lem c ws h = rw (fill_lem new 0 c ws h) (ground arith)

  select-built :
      (ws : Weights) (draw : ℕ) → select (built ws) draw ≡ outcome (pick (draw % weight_sum ws) ws)
  unfolding select
  select-built ws draw = elim (Bool-cases (weight_sum ws == 0)) [
    | inl zero_sum ↦ rw (zero_sum, pick-none (draw % weight_sum ws) ws (ground arith))
    | inr positive ↦
        let (e, picked, j, hit) =
          floor-stage_all tree ws (draw % weight_sum ws) (mod-lt draw (ground arith)) in
        rw (positive, picked, hit)
  ]

  -- Let the weights of the candidates be read without a panic. Then `Update` returns, and `Select`
  -- with any random number returns the candidate in whose part of the total weight the number falls,
  -- taken modulo the total; if the total is 0, it returns the error "no endpoint available".
  pub select-pick :
      (c : Candidates) (ws : Weights) (draw : ℕ)
      → weights_of c ≡ ok ws
      → (r : WeightedRandom) × (update c ≡ ok r)
        × (select r draw ≡ outcome (pick (draw % weight_sum ws) ws))
  select-pick c ws draw h = (built ws, update_lem c ws h, select-built ws draw)

  -- Of the random numbers below the total weight, each endpoint is selected by as many as its weight.
  pub count-select :
      (c : Candidates) (ws : Weights) (d : Endpoint) (r : WeightedRandom)
      → weights_of c ≡ ok ws
      → update c ≡ ok r
      → count (λ draw. is_selected d (select r draw)) 0 r.total_weight ≡ weight_in d ws
  count-select c ws d r h made =
      let same : r ≡ built ws = cc (update_lem c ws h) in
      rw same (
        count_ext _ (λ i. is_endpoint d (pick i ws)) 0 (weight_sum ws)
          (λ i _ lt.
            ap (is_selected d) (select-built ws i)
            ∙ is_selected-outcome d _
            ∙ ap (λ k. is_endpoint d (pick k ws)) (mod-eq_of_lt (omega arith)))
        ∙ count-pick d ws)
