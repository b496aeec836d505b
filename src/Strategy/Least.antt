-- ===== src/Strategy/Least.antt =====
-- pkg/yapr/core/strategy/impl/least_request.go and least_cost.go: of two endpoints drawn at random
-- the one with the smaller cost. The two numbers that `rand.Intn(size)` returns are arguments.
use yapr.Prelude.{
  ℕ, zero, suc, ◌<◌, ◌≤◌, ◌≡◌, refl, false, List, [], ◌∷◌, some, arith, All, ◌⊎◌, ap, sym, ◌∙◌,
  length, get_elem?, ◌==◌, nat_eq, if◌then◌else◌, or_default, ltb, Bool-cases, inl, inr,
}
use yapr.Prelude.Dict.{keys}
use yapr.Endpoint.{Endpoint}
use yapr.Errcode.{err_no_endpoint_available}
use yapr.Types.{Attribute, rps_of, weight_of}
use yapr.Go.{Go, ok, index_out_of_range, ◌>>=◌, or_panic}
use yapr.Strategy.{Candidates, Selected, selected, failed}

pub record Least : Type 0 where
  pub endpoints : List Endpoint
  pub attributes : List Attribute

abbrev pub values : Candidates → List Attribute
values [] = []
values ((e, a) ∷ c) = a ∷ values c

unfoldable pub update : Candidates → Least
update endpoints = record { endpoints = keys endpoints; attributes = values endpoints }

-- `s[i]`
abbrev pub nth : {A : Type 0} → List A → ℕ → Go A
nth xs i = or_panic (get_elem? xs i) index_out_of_range

-- the body of `Select`, for what an attribute costs
unfoldable pub select_by : (Attribute → Go ℕ) → Least → ℕ → ℕ → Go Selected
select_by cost r index1 index2 =
    let first = (do e ← nth r.endpoints 0; ok (selected e)) in
    let smaller = (do
      a1 ← nth r.attributes index1
      a2 ← nth r.attributes index2
      cost1 ← cost a1
      cost2 ← cost a2
      e ← nth r.endpoints (if ltb cost1 cost2 then index1 else index2)
      ok (selected e)) in
    if length r.endpoints == 0
    then ok (failed err_no_endpoint_available)
    else if length r.endpoints == 1
    then first
    else smaller

-- least_request: the requests of a second, 0 if none are reported
abbrev pub request_cost : Attribute → Go ℕ
request_cost a = do rps ← rps_of a; ok (or_default rps 0)

-- least_cost: the weight, 1 if none is set
abbrev pub weight_cost : Attribute → Go ℕ
weight_cost a = do weight ← weight_of a; ok (or_default weight 1)

unfoldable pub select_request : Least → ℕ → ℕ → Go Selected
unfolding select_by
select_request = select_by request_cost

unfoldable pub select_cost : Least → ℕ → ℕ → Go Selected
unfolding select_by
select_cost = select_by weight_cost

-- What every candidate costs can be read.
abbrev pub Readable : (Attribute → Go ℕ) → Candidates → Type 0
Readable cost = All (λ entry. (n : ℕ) × (cost entry.1 ≡ ok n))

abbrev pub cost_at : (Attribute → Go ℕ) → Candidates → ℕ → Go ℕ
cost_at cost c i = do a ← nth (values c) i; cost a

-- One of the two candidates drawn, and none of the two costs less.
pub record Chosen (cost : Attribute → Go ℕ) (c : Candidates) (i j : ℕ) (s : Go Selected)
    : Type 0 where
  pub place : ℕ
  pub drawn : (place ≡ i) ⊎ (place ≡ j)
  pub endpoint : Endpoint
  pub stands : get_elem? (keys c) place ≡ some endpoint
  pub result : s ≡ ok (selected endpoint)
  pub price : ℕ
  pub costs : cost_at cost c place ≡ ok price
  pub least :
      (m n : ℕ) → cost_at cost c i ≡ ok m → cost_at cost c j ≡ ok n → (price ≤ m) × (price ≤ n)

length-keys : (c : Candidates) → length (keys c) ≡ length c
length-keys [] = refl
length-keys (x ∷ c) = ap suc (length-keys c)

Readable-at :
    (cost : Attribute → Go ℕ) (c : Candidates) (i : ℕ)
    → Readable cost c
    → i < length c
    → (e : Endpoint) × (a : Attribute) × (n : ℕ) × (get_elem? (keys c) i ≡ some e)
      × (get_elem? (values c) i ≡ some a)
      × (cost a ≡ ok n)
Readable-at cost [] i h lt = absurd (omega arith)
Readable-at cost ((e, a) ∷ c) zero h lt = (e, a, h.0.0, refl, refl, h.0.1)
Readable-at cost ((e, a) ∷ c) (suc i) h lt = Readable-at cost c i h.1 (omega arith)

-- Let the cost of every candidate be read without a panic, and let the two numbers drawn be below
-- the number of candidates. Then `Select` returns one of the two candidates drawn, without a panic,
-- and neither of the two costs less.
pub select_by-Chosen :
    (cost : Attribute → Go ℕ) (c : Candidates) (i j : ℕ)
    → Readable cost c
    → i < length c
    → j < length c
    → Chosen cost c i j (select_by cost (update c) i j)
unfolding select_by update
select_by-Chosen cost c i j h hi hj =
    let (d, a, m, d_at, a_at, a_cost) = Readable-at cost c i h hi in
    let (e, b, n, e_at, b_at, b_cost) = Readable-at cost c j h hj in
    let same = length-keys c in
    let positive : (length (keys c) == 0) ≡ false = ground arith in
    let at_i : cost_at cost c i ≡ ok m = rw (a_at, a_cost) in
    let at_j : cost_at cost c j ≡ ok n = rw (b_at, b_cost) in
    elim (Bool-cases (length (keys c) == 1)) [
      | inl one ↦
          let i_zero : i ≡ 0 = ground arith in
          let j_same : j ≡ i = ground arith in
          let at_zero : get_elem? (keys c) 0 ≡ some d =
            ap (get_elem? (keys c)) (sym i_zero) ∙ d_at in
          record {
            place = i;
            drawn = inl refl;
            endpoint = d;
            stands = d_at;
            result = rw (positive, one, at_zero);
            price = m;
            costs = at_i;
            least = λ m' n' p q. ground (arith, at_i, at_j, ap (cost_at cost c) j_same);
          }
      | inr more ↦ elim (Bool-cases (ltb m n)) [
        | inl lt ↦ record {
          place = i;
          drawn = inl refl;
          endpoint = d;
          stands = d_at;
          result = rw (positive, more, a_at, b_at, a_cost, b_cost, lt, d_at);
          price = m;
          costs = at_i;
          least = λ m' n' p q. ground (arith, at_i, at_j);
        }
        | inr ge ↦ record {
          place = j;
          drawn = inr refl;
          endpoint = e;
          stands = e_at;
          result = rw (positive, more, a_at, b_at, a_cost, b_cost, ge, e_at);
          price = n;
          costs = at_j;
          least = λ m' n' p q. ground (arith, at_i, at_j);
        }
      ]
    ]
