-- ===== src/Tests/Strategies.antt =====
-- Selections among two endpoints.
use yapr.Prelude.{some, string_eq, nat_eq, List, [], ◌∷◌, none, ◌≡◌, refl, ◌⊎◌, arith}
use yapr.Prelude.Dict.{lookup, insert}
use yapr.Endpoint.{Endpoint, endpoint_eq, to_string}
use yapr.Text.Decimal.{format}
use yapr.Go.{Go, ok}
use yapr.TreeMap.{TreeMap}
use yapr.TreeMap.Model.{assoc_map, ceiling}
use yapr.Strategy.{Selected}
use yapr.Strategy.Pick.{Weights, weights_of, weight_sum, weight_in}
use yapr.Strategy.Trace.{trace, times}
use yapr.Strategy.WeightedRandom as Wr
use yapr.Strategy.WeightedRoundRobin as Wrr
use yapr.Strategy.RoundRobin as Rr
use yapr.Strategy.HashRing as Ring
use yapr.Strategy.HashRing.Stable as Stable
use yapr.Strategy.Direct as Di
use yapr.Strategy.Cache.Lru.Refined.{Agrees, recency_get, new_lru_buffer-Represents, get-Agrees}
use yapr.Strategy.Cache.Lru.{get, LruCache, new_lru_buffer}
use yapr.Errcode.{success}
use yapr.Types.{MatchTarget}
use yapr.Tests.{alpha, beta, two, weighing, request, sum_hash}

abbrev tree : TreeMap Endpoint
tree = assoc_map Endpoint

abbrev weights : Weights
weights = (alpha, 2) ∷ (beta, 1) ∷ []

weights_of-two : weights_of two ≡ ok weights
unfolding weights_of
weights_of-two = refl

abbrev weighted : Wr.WeightedRandom tree
weighted = record { total_weight = 3; weight_stage_to_endpoint = (0, alpha) ∷ (2, beta) ∷ [] }

select-weighted_fair_example :
    (r' : Wrr.WeightedRoundRobin tree) × (Wrr.update tree
        (record { weight_stage_to_endpoint = []; total_weight = 0; last_idx = 0 })
        two
      ≡ ok r')
    × (rs : List Selected) × (trace (Wrr.select tree) 3 r' ≡ ok rs)
    × (times alpha rs ≡ weight_in alpha weights)
unfolding weight_sum
select-weighted_fair_example =
    Wrr.select-weighted_fair tree
      (record { weight_stage_to_endpoint = []; total_weight = 0; last_idx = 0 }) two weights alpha
      weights_of-two (omega arith) (omega arith)

abbrev robin : Rr.RoundRobin
robin = record { endpoints = alpha ∷ beta ∷ []; last_idx = 5 }

abbrev empty_ring : Ring.HashRing tree sum_hash
empty_ring = record { header_key = "user"; ring = none }

abbrev ring_of : Go (Ring.HashRing tree sum_hash) → Ring.HashRing tree sum_hash
ring_of (ok r) = r
ring_of _ = empty_ring

abbrev ring_one : Ring.HashRing tree sum_hash
ring_one = ring_of (Ring.update tree sum_hash empty_ring ((alpha, weighing 2) ∷ []))

abbrev ring_two : Ring.HashRing tree sum_hash
ring_two = ring_of (Ring.update tree sum_hash empty_ring two)

select-stable_example : (beta ≡ beta) ⊎ (beta ≡ alpha)
unfolding Ring.update Ring.fill Ring.put_nodes Ring.select insert lookup ceiling to_string format
select-stable_example =
    Stable.select-stable tree sum_hash empty_ring ring_one ring_two ((alpha, weighing 2) ∷ []) beta
      (weighing 1) request alpha beta refl refl refl refl

abbrev lru : LruCache
lru = record (new_lru_buffer 2) { buf = ("7", 0) ∷ []; head = some 0; tail = some 0; free = 1 }

abbrev direct : Di.Direct LruCache
direct = record { header_key = "user"; cache = some lru; endpoints = two }

abbrev request_7 : MatchTarget
request_7 = record { uri = "/echo"; port = 9090; headers = ("user", "7") ∷ [] }

get-Agrees_example :
    Agrees
      (new_lru_buffer 1)
      (recency_get 1 (success (some alpha)) [] "7")
      (get (success (some alpha)) (new_lru_buffer 1) "7")
get-Agrees_example =
    get-Agrees (new_lru_buffer 1) [] (success (some alpha)) "7"
      (new_lru_buffer-Represents 1 (omega arith))
