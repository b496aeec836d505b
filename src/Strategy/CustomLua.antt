-- ===== src/Strategy/CustomLua.antt =====
-- pkg/yapr/core/strategy/impl/custom_lua.go. What the script's function returns, or the error of running
-- it, is an argument.
use yapr.Prelude.{
  ℕ, zero, suc, List, [], ◌∷◌, Option, none, some, ◌≡◌, refl, length, get_elem?, arith, inl, inr,
  if◌then◌else◌, ltb, get_elem?-lt, Bool-cases, false,
}
use yapr.Prelude.Dict.{keys}
use yapr.Text.Decimal.{ℤ, pos, negsuc}
use yapr.Endpoint.{Endpoint}
use yapr.Errcode.{Result, success, failure, err_no_endpoint_available, err_lua_index_out_of_range}
use yapr.Go.{Go, ok, ◌>>=◌}
use yapr.Strategy.{Candidates, Selected, selected, failed}
use yapr.Strategy.RoundRobin.{index}

pub record CustomLua : Type 0 where
  pub endpoints : List Endpoint

abbrev pub by_index : List Endpoint → ℤ → Go Selected
by_index es (negsuc zero) = ok (failed err_no_endpoint_available)
by_index es (negsuc (suc n)) = ok (failed err_lua_index_out_of_range)
by_index es (pos n) =
    let found = (index es n >>= λ e. ok (selected e)) in
    if ltb n (length es) then found else ok (failed err_lua_index_out_of_range)

unfoldable pub select : CustomLua → Result ℤ → Go Selected
select r (failure err) = ok (record { endpoint = none; headers = none; error = some err })
select r (success idx) = by_index r.endpoints idx

unfoldable pub update : Candidates → CustomLua
update endpoints = record { endpoints = keys endpoints }

-- The candidate at an index, if there is one.
abbrev pub at_index : List Endpoint → ℤ → Option Endpoint
at_index es (pos n) = get_elem? es n
at_index es (negsuc n) = none

-- The selection by that candidate: without one, -1 stands for no endpoint, and another index is an error.
abbrev pub answer : ℤ → Option Endpoint → Selected
answer idx (some e) = selected e
answer (negsuc zero) none = failed err_no_endpoint_available
answer idx none = failed err_lua_index_out_of_range

get_elem?-beyond : (es : List Endpoint) (n : ℕ) → ltb n (length es) ≡ false → get_elem? es n ≡ none
get_elem?-beyond [] n h = refl
get_elem?-beyond (e ∷ es) zero h = absurd (ground (arith, h))
get_elem?-beyond (e ∷ es) (suc n) h = get_elem?-beyond es n (ground (arith, h))

-- Whatever index the script returns, `Select` returns the candidate that stands there, or an error where
-- none does: it never reads beyond the candidates.
pub select_bounds :
    (r : CustomLua) (idx : ℤ) → select r (success idx) ≡ ok (answer idx (at_index r.endpoints idx))
unfolding select
select_bounds r (negsuc zero) = refl
select_bounds r (negsuc (suc n)) = refl
select_bounds r (pos n) = elim (Bool-cases (ltb n (length r.endpoints))) [
  | inl inside ↦
      let (e, found) = get_elem?-lt r.endpoints n (ground (arith, inside)) in
      rw (inside, found) refl
  | inr beyond ↦ rw (beyond, get_elem?-beyond r.endpoints n beyond) refl
]
