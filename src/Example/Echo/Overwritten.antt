-- ===== src/Example/Echo/Overwritten.antt =====
-- The custom route after a call of `Echo`.
use yapr.Prelude.{
  ℕ, ◌≤◌, String, string_eq, true, ◌&&◌, not, List, ◌∷◌, Option, none, some, is_some, ==_refl,
  ==_iff, if◌then◌else◌, ◌≡◌, refl, ap, ◌∙◌, inl, inr, arith, Bool-cases,
}
use yapr.Prelude.Dict.{lookup}
use yapr.Endpoint.{Endpoint, to_string, endpoint_from_string}
use yapr.Errcode.{success}
use yapr.Text.Decimal.{ℤ, pos}
use yapr.Store.Routes.{
  Routes, hget, hset, hget-hset, set_custom_route, get_custom_route, found_route,
}
use yapr.Store.Routes.Swap.{in_force, holder, gives_way, stored, is_paired, set_custom_route_swap}
use yapr.Sdk.Server.{YaprSdk}
use yapr.Sdk.Metadata.{Md}
use yapr.Sdk.Handover.{Shared, set_custom_route_server, found_route-to_string, to_string_nonempty}
use yapr.Example.Echo.{asked, echo_call}

-- The route that is in force, if it can be read.
abbrev pub Holds : ℕ → Routes → String → Option Endpoint → Type 0
Holds now r uid none = holder now r "echo-dir" uid ≡ none
Holds now r uid (some old) =
    (holder now r "echo-dir" uid ≡ some (to_string old))
    × (endpoint_from_string (to_string old) ≡ some old)

-- A route that was in force gives way to its own text later, too.
in_force-later :
    (now later : ℕ) (o : Option String) (d : Option ℤ) (s : String)
    → in_force now o d ≡ some s
    → gives_way (in_force later o d) s ≡ true
in_force-later now later none d s is = cc
in_force-later now later (some t) d s is = ground (arith, ==_iff t s)

set_script-stored :
    (now : ℕ) (r : Routes) (uid : String) (e : Endpoint)
    → endpoint_from_string (to_string e) ≡ some e
    → get_custom_route (stored now r "echo-dir" uid e (pos 0)) "echo-dir" uid ≡ success (some e)
unfolding get_custom_route
set_script-stored now r uid e back =
    let written : hget (hset r.endpoints "echo-dir" uid (to_string e)) "echo-dir" uid
        ≡ some (to_string e) =
      hget-hset r.endpoints "echo-dir" uid "echo-dir" uid (to_string e)
      ∙ ground (arith, ==_refl uid) in
    ap found_route written ∙ found_route-to_string e back

-- Let a call of `Echo` name a user and ask for a custom route, at a time that is positive; let the
-- user's field have a deadline exactly if it has an endpoint, and let the texts of the server's
-- endpoint and of the endpoint in force, if any, be read back. Then the user's route goes to the
-- server's endpoint, and the stored routes differ from the former ones in what `SetCustomRoute` writes
-- with the timeout 0, at the time of its second call if a route was in force; unless one is in force
-- and the call of `Echo` does not ask to overwrite it: then the stored routes are as before.
pub echo_call-get_custom_route :
    (now later : ℕ) (y : YaprSdk) (c : Shared) (e : Endpoint) (md : Md) (uid : String)
    (more : List String) (former : Option Endpoint)
    → 1 ≤ now
    → 1 ≤ later
    → lookup "x-uid" md ≡ some (uid ∷ more)
    → asked md "set-custom-route" ≡ true
    → is_paired (hget c.routes.endpoints "echo-dir" uid) (hget c.routes.deadlines "echo-dir" uid)
      ≡ true
    → endpoint_from_string (to_string e) ≡ some e
    → Holds now c.routes uid former
    → ((echo_call now later y c e (some md)).1.routes ≡ (
        if is_some former && not (asked md "overwrite")
        then c.routes
        else stored (if is_some former then later else now) c.routes "echo-dir" uid e (pos 0)))
      × (get_custom_route (echo_call now later y c e (some md)).1.routes "echo-dir" uid ≡ (
          if is_some former && not (asked md "overwrite")
          then get_custom_route c.routes "echo-dir" uid
          else success (some e)))
unfolding echo_call set_custom_route_server
echo_call-get_custom_route now later y c e md uid more none positive positive' named asks paired
      back free =
    let first = set_custom_route_swap now c.routes "echo-dir" uid e none (pos 0) positive paired in
    rw (named, asks, first, free) (refl, set_script-stored now c.routes uid e back)
echo_call-get_custom_route now later y c e md uid more (some old) positive positive' named asks
      paired back (held, old_back) =
    let first : set_custom_route now c.routes "echo-dir" uid e none (pos 0)
        ≡ (c.routes, success (some old)) =
      set_custom_route_swap now c.routes "echo-dir" uid e none (pos 0) positive paired
      ∙ rw (held, to_string_nonempty old old_back, old_back) refl in
    let second : set_custom_route later c.routes "echo-dir" uid e (some old) (pos 0)
        ≡ (stored later c.routes "echo-dir" uid e (pos 0), success none) =
      set_custom_route_swap later c.routes "echo-dir" uid e (some old) (pos 0) positive' paired
      ∙ rw
          (in_force-later now later _ (hget c.routes.deadlines "echo-dir" uid) (to_string old) held)
          refl in
    elim (Bool-cases (asked md "overwrite")) [
      | inl over ↦
          rw (named, asks, over, first, second) (refl, set_script-stored later c.routes uid e back)
      | inr keep ↦ rw (named, asks, keep, first) (refl, refl)
    ]
