-- ===== src/Strategy/Weighted.antt =====
-- The tree map that the weighted strategies build: each candidate is stored at the sum of the
-- weights before it. A candidate of weight 0 is overwritten by the next one.
use yapr.Prelude.{
  ℕ, ◌+◌, ◌-◌, ◌<◌, ◌≤◌, ◌≡◌, refl, ◌∙◌, ap, [], ◌∷◌, none, some, arith, ltb, nat_eq, Bool-cases,
  Option-cases, inl, inr,
}
use yapr.Endpoint.{Endpoint}
use yapr.TreeMap.{TreeMap}
use yapr.Strategy.Pick.{Weights, weight_sum, pick, pick-some}

module _ (tree : TreeMap Endpoint) where
  open tree use {Map, put, get, floor, get-put, floor_some, floor_none}

  unfoldable pub stage_all : Map → ℕ → Weights → Map
  stage_all m t [] = m
  stage_all m t ((e, w) ∷ ws) = stage_all (put t e m) (t + w) ws

  -- `e` is stored at the greatest key that is at most `k`.
  pub record Stands (m : Map) (k : ℕ) (e : Endpoint) : Type 0 where
    pub key : ℕ
    pub found : get key m ≡ some e
    pub below : key ≤ k
    pub last : (i : ℕ) → i ≤ k → key < i → get i m ≡ none

  keeps_below :
      (m : Map) (t : ℕ) (ws : Weights) (i : ℕ) → i < t → get i (stage_all m t ws) ≡ get i m
  unfolding stage_all
  keeps_below m t [] i h = refl
  keeps_below m t ((e, w) ∷ ws) i h =
      keeps_below (put t e m) (t + w) ws i (omega arith) ∙ ground (arith, get-put t i e m)

  stage_Stands :
      (m : Map) (t : ℕ) (ws : Weights) (k : ℕ) (e : Endpoint)
      → ((i : ℕ) → t < i → get i m ≡ none)
      → t ≤ k
      → k < t + weight_sum ws
      → pick (k - t) ws ≡ some e
      → Stands (stage_all m t ws) k e
  unfolding stage_all pick weight_sum
  stage_Stands m t [] k e fresh le lt picked = cc
  stage_Stands m t ((d, w) ∷ ws) k e fresh le lt picked = elim (Bool-cases (ltb (k - t) w)) [
    | inl here ↦ record {
      key = t;
      found = keeps_below (put t d m) (t + w) ws t (ground arith) ∙ ground (arith, get-put t t d m);
      below = le;
      last = λ i le' lt'.
          keeps_below (put t d m) (t + w) ws i (ground arith)
          ∙ ground (arith, get-put t i d m, fresh i);
    }
    | inr there ↦
        stage_Stands (put t d m) (t + w) ws k e (λ i h. ground (arith, get-put t i d m, fresh i))
          (ground arith) (omega arith) (ap (λ r. pick r ws) (omega arith) ∙ (rw there at picked))
  ]

  -- `Floor` finds it.
  pub floor-Stands :
      (m : Map) (k : ℕ) (e : Endpoint) → Stands m k e → (j : ℕ) × (floor k m ≡ some (j, e))
  floor-Stands m k e s = elim (Option-cases (floor k m)) [
    | inl nothing ↦ absurd (ground (arith, floor_none k m nothing s.key s.below, s.found))
    | inr ((j, d), hit) ↦
        let (found, below, last) = floor_some k j d m hit in
        (j, hit ∙ ground (arith, last s.key s.below, s.last j below, s.found))
  ]

  pub floor-stage_all :
      (ws : Weights) (k : ℕ)
      → k < weight_sum ws
      → (e : Endpoint) × (pick k ws ≡ some e)
        × (j : ℕ) × (floor k (stage_all tree.new 0 ws) ≡ some (j, e))
  floor-stage_all ws k h =
      let (e, picked) = pick-some k ws h in
      let stands =
        stage_Stands tree.new 0 ws k e (λ i _. tree.get-new i) (omega arith) (omega arith)
          (ap (λ r. pick r ws) (omega arith) ∙ picked) in
      let (j, hit) = floor-Stands (stage_all tree.new 0 ws) k e stands in (e, picked, j, hit)
