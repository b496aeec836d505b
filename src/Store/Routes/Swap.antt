-- ===== src/Store/Routes/Swap.antt =====
-- `SetCustomRoute` as a swap of the route that is in force, and the routes that it loses.
use yapr.Prelude.{
  ℕ, ◌≤◌, String, Bool, true, false, Option, none, some, or_default, ◌≡◌, refl, ap, arith, ◌==◌,
  string_eq, if◌then◌else◌, not, Bool-cases, inl, inr,
}
use yapr.Endpoint.{Endpoint, to_string, endpoint_from_string}
use yapr.Errcode.{coded, success, failure, err_no_custom_route}
use yapr.Text.Decimal.{ℤ, pos}
use yapr.Store.Routes.{
  Routes, hget, hset, from_redis, deadline_at, is_past, unexpired, differs, reply, set_script,
  old_text, set_custom_route, get_custom_route, found_route,
}

-- The text of the route that is in force: its deadline has not passed.
abbrev pub in_force : ℕ → Option String → Option ℤ → Option String
in_force now none ddl = none
in_force now (some s) ddl = if is_past now (or_default ddl (pos 1)) then none else some s

abbrev pub holder : ℕ → Routes → String → String → Option String
holder now r selector value =
    in_force now (hget r.endpoints selector value) (hget r.deadlines selector value)

-- Nothing is in force, or what the caller takes to be.
abbrev pub gives_way : Option String → String → Bool
gives_way none old = true
gives_way (some s) old = s == old

abbrev pub parsed : Option String → Option Endpoint
parsed none = none
parsed (some s) = endpoint_from_string s

abbrev pub stored : ℕ → Routes → String → String → Endpoint → ℤ → Routes
stored now r selector value e timeout = record r {
  endpoints = hset r.endpoints selector value (to_string e);
  deadlines = hset r.deadlines selector value (deadline_at now timeout);
}

-- A field has a deadline exactly if it has an endpoint.
abbrev pub is_paired : Option String → Option ℤ → Bool
is_paired none none = true
is_paired (some s) (some d) = true
is_paired e d = false

differs_lem :
    (now : ℕ) (e : Option String) (d : Option ℤ) (old : String)
    → 1 ≤ now
    → is_paired e d ≡ true
    → differs (unexpired now (from_redis e) d) old ≡ not (gives_way (in_force now e d) old)
differs_lem now none none old later paired = ground arith
differs_lem now none (some d) old later paired = absurd (ground arith)
differs_lem now (some s) none old later paired = absurd (ground arith)
differs_lem now (some s) (some d) old later paired = elim (Bool-cases (is_past now d)) [
  | inl past ↦ rw past refl
  | inr valid ↦ rw valid refl
]

reply_lem :
    (now : ℕ) (e : Option String) (d : Option ℤ) (old : String)
    → 1 ≤ now
    → is_paired e d ≡ true
    → reply (unexpired now (from_redis e) d) ≡ success (parsed (in_force now e d))
reply_lem now none none old later paired = ground arith
reply_lem now none (some d) old later paired = absurd (ground arith)
reply_lem now (some s) none old later paired = absurd (ground arith)
reply_lem now (some s) (some d) old later paired = elim (Bool-cases (is_past now d)) [
  | inl past ↦ rw past refl
  | inr valid ↦ rw valid refl
]

-- Let the field have a deadline exactly if it has an endpoint. Then `SetCustomRoute` stores the route
-- with its deadline, and returns nil, if no route is in force or the one in force is `old`. Otherwise
-- it changes nothing and returns the route in force.
pub set_custom_route_swap :
    (now : ℕ) (r : Routes) (selector value : String) (e : Endpoint) (old : Option Endpoint)
    (timeout : ℤ)
    → 1 ≤ now
    → is_paired (hget r.endpoints selector value) (hget r.deadlines selector value) ≡ true
    → set_custom_route now r selector value e old timeout ≡ (
        if gives_way (holder now r selector value) (old_text old)
        then (stored now r selector value e timeout, success none)
        else (r, success (parsed (holder now r selector value))))
unfolding set_custom_route set_script
set_custom_route_swap now r selector value e old timeout later paired =
    let test =
      differs_lem now (hget r.endpoints selector value) (hget r.deadlines selector value)
        (old_text old) later paired in
    let result =
      reply_lem now (hget r.endpoints selector value) (hget r.deadlines selector value)
        (old_text old) later paired in
    elim (Bool-cases (gives_way (holder now r selector value) (old_text old))) [
      | inl way ↦ rw (test, way) refl
      | inr kept ↦ rw (test, kept) (ap (λ x. (r, x)) result)
    ]

-- Where a route has been removed and its deadline is still there and has not passed, `SetCustomRoute`
-- returns nil as if it had stored the route, and stores nothing: `GetCustomRoute` finds no route.
pub lost_route :
    (now : ℕ) (r : Routes) (selector value : String) (e : Endpoint) (old : Option Endpoint)
    (timeout d : ℤ)
    → hget r.endpoints selector value ≡ none
    → hget r.deadlines selector value ≡ some d
    → is_past now d ≡ false
    → (set_custom_route now r selector value e old timeout ≡ (r, success none))
      × (get_custom_route (set_custom_route now r selector value e old timeout).0 selector value
          ≡ failure (coded err_no_custom_route))
unfolding set_custom_route set_script get_custom_route
lost_route now r selector value e old timeout d removed kept valid =
    (rw (removed, kept, valid) refl, rw (removed, kept, valid) (ap found_route removed))
