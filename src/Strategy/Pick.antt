-- ===== src/Strategy/Pick.antt =====
-- The weighted choice that the two weighted strategies are to make, without the tree map: the
-- candidates lie one after the other, each as long as its weight.
use mathlib.Core.Path.{ap₂}
use yapr.Prelude.{
  ℕ, ◌+◌, ◌-◌, ◌*◌, ◌<◌, ◌≤◌, ◌≡◌, refl, ◌∙◌, ap, Bool, false, List, [], ◌∷◌, Option, none, some,
  arith, ltb, lt→ltb, or_default, ◌==◌, if◌then◌else◌, Bool-cases, inl, inr,
}
use yapr.Endpoint.{Endpoint, endpoint_eq}
use yapr.Types.{Attribute, weight_of}
use yapr.Errcode.{err_no_endpoint_available}
use yapr.Go.{Go, ok, ◌>>=◌, >>=-eq-ok}
use yapr.Strategy.{Candidates, Selected, selected, failed}
use yapr.Strategy.Count.{to_nat, count, count_ext, count-append, count-offset, count_const}

abbrev pub Weights : Type 0
Weights = List (Endpoint × ℕ)

-- `weight := 1; if attr.Weight != nil { weight = *attr.Weight }`
unfoldable pub weights_of : Candidates → Go Weights
weights_of [] = ok []
weights_of ((e, attr) ∷ rest) = do
  w ← weight_of attr
  ws ← weights_of rest
  ok ((e, or_default w 1) ∷ ws)

-- Inversion of `weights_of` at a first candidate.
pub weights_of-cons :
    (e : Endpoint) (a : Attribute) (c : Candidates) (ws : Weights)
    → weights_of ((e, a) ∷ c) ≡ ok ws
    → (w : Option ℕ) × (rest : Weights) × (weight_of a ≡ ok w)
      × (weights_of c ≡ ok rest)
      × (ws ≡ (e, or_default w 1) ∷ rest)
unfolding weights_of
weights_of-cons e a c ws h =
    let (w, read, later) = >>=-eq-ok (weight_of a) _ h in
    let (rest, more, same) = >>=-eq-ok (weights_of c) _ later in (w, rest, read, more, cc)

unfoldable pub weight_sum : Weights → ℕ
weight_sum [] = 0
weight_sum ((e, w) ∷ ws) = w + weight_sum ws

-- the weight of an endpoint
unfoldable pub weight_in : Endpoint → Weights → ℕ
weight_in d [] = 0
weight_in d ((e, w) ∷ ws) = w * to_nat (e == d) + weight_in d ws

-- the candidate in whose part the number falls
unfoldable pub pick : ℕ → Weights → Option Endpoint
pick r [] = none
pick r ((e, w) ∷ ws) = if ltb r w then some e else pick (r - w) ws

abbrev pub is_endpoint : Endpoint → Option Endpoint → Bool
is_endpoint d none = false
is_endpoint d (some e) = e == d

pub pick-some : (r : ℕ) (ws : Weights) → r < weight_sum ws → (e : Endpoint) × (pick r ws ≡ some e)
unfolding pick weight_sum
pick-some r [] h = absurd (omega arith)
pick-some r ((e, w) ∷ ws) h = elim (Bool-cases (ltb r w)) [
  | inl here ↦ (e, rw here)
  | inr there ↦ rw there (pick-some (r - w) ws (ground arith))
]

pub pick-none : (r : ℕ) (ws : Weights) → weight_sum ws ≤ r → pick r ws ≡ none
unfolding pick weight_sum
pick-none r [] h = refl
pick-none r ((e, w) ∷ ws) h = ground (arith, pick-none (r - w) ws)

-- What a choice is to return: "no endpoint available" if there is none.
abbrev pub outcome : Option Endpoint → Selected
outcome none = failed err_no_endpoint_available
outcome (some e) = selected e

abbrev pub is_selected : Endpoint → Selected → Bool
is_selected d s = is_endpoint d s.endpoint

pub is_selected-outcome :
    (d : Endpoint) (o : Option Endpoint) → is_selected d (outcome o) ≡ is_endpoint d o
is_selected-outcome d none = refl
is_selected-outcome d (some e) = refl

-- Of the numbers below the total weight, each endpoint is picked by as many as its weight.
pub count-pick :
    (d : Endpoint) (ws : Weights)
    → count (λ r. is_endpoint d (pick r ws)) 0 (weight_sum ws) ≡ weight_in d ws
unfolding pick weight_sum weight_in
count-pick d [] = unfold count in refl
count-pick d ((e, w) ∷ ws) =
    let p = λ (r : ℕ). is_endpoint d (pick r ((e, w) ∷ ws)) in
    let q = λ (r : ℕ). is_endpoint d (pick r ws) in
    count-append p 0 w (weight_sum ws)
    ∙ ap₂ ◌+◌ (count_const p (e == d) 0 w (λ i _ lt. rw (lt→ltb i w (omega arith)))) (
        count_ext p (λ i. q (i - w)) (0 + w) (weight_sum ws) (λ i le _. ground arith)
        ∙ ap (λ a. count (λ i. q (i - w)) a (weight_sum ws)) (omega arith)
        ∙ count-offset q w 0 (weight_sum ws)
        ∙ count-pick d ws)
