-- ===== src/Router.antt =====
-- pkg/yapr/core/router.go: matching, and `Route` over what it needs of the selectors. `compile` is
-- `regexp.Compile`: no pattern, or the test that `Match` makes.
pub mod Matching
pub mod Routing
pub mod Recovery
pub mod Origin
pub mod Target
use yapr.Prelude.{
  ℕ, zero, suc, String, Bool, true, false, List, [], ◌∷◌, Option, none, some, ◌==◌, nat_eq,
  string_eq, if◌then◌else◌, or_default, is_some, not, ◌&&◌, ◌||◌,
}
use yapr.Prelude.Dict.{Dict, lookup, insert, has}
use yapr.Endpoint.{Endpoint, endpoint_eq, to_string}
use yapr.Errcode.{
  Error, coded, new, is, err_no_endpoint_available, err_no_custom_route, err_endpoint_unavailable,
  err_endpoint_rps_limit, err_context_canceled, err_block_timeout, err_no_rule_matched,
}
use yapr.Types.{
  MatchTarget, Matcher, Rule, Router, Selector, RuleError, rule_default, no_endpoint, unavailable,
  rps_limit, ErrorHandler, retry, pass, block, throw, panics, other_solution,
}
use yapr.Go.{Go, ok, panic, raised, bad_regexp, nil_dereference, ◌>>=◌, or_panic}
use yapr.Strategy.{Selected}

module _ (compile : String → Option (String → Bool)) where
  -- `regexp.MustCompile`
  abbrev pub must_compile : String → Go (String → Bool)
  must_compile pattern = or_panic (compile pattern) (bad_regexp pattern)

  -- `RegexHeaders`
  unfoldable pub regex_headers : Dict String String → Go (Dict String (String → Bool))
  regex_headers [] = ok []
  regex_headers ((k, v) ∷ headers) = do
    regex ← must_compile v
    rest ← regex_headers headers
    ok ((k, regex) ∷ rest)

  abbrev pub header_matches : (String → Bool) → Option String → Bool
  header_matches regex none = false
  header_matches regex (some value) = regex value

  -- the loop of `Match`
  unfoldable pub match_headers : Dict String (String → Bool) → MatchTarget → Bool
  match_headers [] target = true
  match_headers ((k, regex) ∷ headers) target =
      let rest = match_headers headers target in
      if header_matches regex (lookup k target.headers) then rest else false

  unfoldable pub match_target : Matcher → MatchTarget → Go Bool
  match_target m target =
      let headers = (do regexes ← regex_headers m.headers; ok (match_headers regexes target)) in
      let behind_uri =
        if not (m.port == 0) && not (target.port == m.port) then ok false else headers in
      must_compile m.uri >>= λ uri. if uri target.uri then behind_uri else ok false

  unfoldable pub match_any : List Matcher → MatchTarget → Go Bool
  match_any [] target = ok false
  match_any (m ∷ matchers) target = do
    let rest = match_any matchers target
    matched ← match_target m target
    if matched then ok true else rest

  unfoldable pub match_rule : Rule → MatchTarget → Go Bool
  match_rule r target = match_any r.matchers target

-- What `Route` uses of the rest of the process: the selectors' settings (none if `GetSelector`
-- fails), `Select` of the selector of a name, whether `GetService` finds a service, and what happens
-- elsewhere during a sleep.
pub record Selectors (W : Type 0) : Type 0 where
  pub settings : W → String → Option Selector
  pub select : W → String → MatchTarget → Go (W × Selected)
  pub serves : W → String → Bool
  pub sleep : W → ℕ → W

-- What wakes a blocked `Route`: the caller's `Timeout` channel, the timer, or the service's
-- `UpdateNTF`, with the set of endpoints that `EndpointsSet` then returns.
pub data Event : Type 0 where
  canceled elapsed : Event
  updated : Dict Endpoint (Unit {0}) → Event

-- The five results of `Route`: those of a route that is found, or its error.
pub data Routed : Type 0 where
  routed : String → Endpoint → ℕ → Option (Dict String String) → Routed
  refused : Error → Routed

-- Which entry of `Catch` an error looks up.
unfoldable pub rule_error : Error → RuleError
rule_error err =
    if is err err_no_endpoint_available || is err err_no_custom_route
    then no_endpoint
    else if is err err_endpoint_unavailable
    then unavailable
    else if is err err_endpoint_rps_limit
    then rps_limit
    else rule_default

-- The error of `throw` and of `panic`: the handler's, if it has a code or a message.
unfoldable pub thrown : ErrorHandler → Error → Error
thrown handler err =
    if is_some handler.code || is_some handler.message
    then coded (new (or_default handler.code 0) (or_default handler.message ""))
    else err

abbrev pub in_set : Option Endpoint → Dict Endpoint (Unit {0}) → Bool
in_set none set = false
in_set (some e) set = has e set

-- The loop of `block`: none when the endpoint is there. The timer's event is the last one.
unfoldable pub wait : Option Endpoint → List Event → Option Error
wait endpoint [] = some (coded err_block_timeout)
wait endpoint (canceled ∷ events) = some (coded err_context_canceled)
wait endpoint (elapsed ∷ events) = some (coded err_block_timeout)
wait endpoint (updated set ∷ events) =
    let rest = wait endpoint events in if in_set endpoint set then none else rest

-- `if headers != nil { ... }`
abbrev pub with_route :
    String → Endpoint → Option (Dict String String) → Option (Dict String String)
with_route router endpoint none = none
with_route router endpoint (some headers) =
    some (insert "yapr-endpoint" (to_string endpoint) (insert "yapr-router" router headers))

module _ {W : Type 0} (sys : Selectors W) where
  open sys use {settings, select, serves, sleep}

  -- The loop of `retry`, `times` rounds, from the last selection: a selection without an error ends it.
  unfoldable pub retry_select : ℕ → ℕ → String → MatchTarget → W → Selected → Go (W × Selected)
  retry_select zero interval name target w last = ok (w, last)
  retry_select (suc times) interval name target w last = do
    (w', now) ← select (sleep w interval) name target
    elim now.error [
      | none ↦ ok (w', now)
      | some err ↦ retry_select times interval name target w' now
    ]

  -- The end of a round of `Route`.
  unfoldable pub finish : String → Selector → W → Selected → Go (W × Routed)
  finish router selector w result = do
    endpoint ← or_panic result.endpoint nil_dereference
    let port = if not (endpoint.port == 0) then endpoint.port else selector.port
    ok (w, routed selector.service endpoint port (with_route router endpoint result.headers))

  -- `switch handler.Solution`; `next` is the next round.
  unfoldable pub handle :
      String
      → Rule
      → Selector
      → MatchTarget
      → List Event
      → (W → Go (W × Routed))
      → W
      → Selected
      → Error
      → ErrorHandler
      → Go (W × Routed)
  handle router rule selector target events next w result err handler = elim handler.solution [
    | pass ↦ next w
    | throw ↦ ok (w, refused (thrown handler err))
    | panics ↦ panic (raised (thrown handler err))
    | retry ↦ do
      (w', last) ←
          retry_select (or_default handler.times 3) (or_default handler.interval 1000) rule.selector
            target w result
      finish router selector w' last
    | block ↦
        if serves w selector.service
        then elim (wait result.endpoint events) [
          | none ↦ finish router selector w result
          | some failure ↦ ok (w, refused failure)
        ]
        else next w
    | other_solution name ↦ finish router selector w result
  ]

  -- A round of `Route` for a rule that matches.
  unfoldable pub round :
      String → Rule → MatchTarget → List Event → (W → Go (W × Routed)) → W → Go (W × Routed)
  round router rule target events next w = do
    selector ← or_panic (settings w rule.selector) nil_dereference
    (w', result) ← select w rule.selector target
    elim result.error [
      | none ↦ finish router selector w' result
      | some err ↦ elim (rule.catch (rule_error err)) [
        | none ↦ ok (w', refused err)
        | some handler ↦ handle router rule selector target events next w' result err handler
      ]
    ]

module _ (compile : String → Option (String → Bool)) {W : Type 0} (sys : Selectors W) where
  -- the loop of `Route`
  unfoldable pub route_rules : String → List Rule → MatchTarget → List Event → W → Go (W × Routed)
  route_rules router [] target events w = ok (w, refused (coded err_no_rule_matched))
  route_rules router (rule ∷ rules) target events w = do
    let next = λ (w' : W). route_rules router rules target events w'
    matched ← match_rule compile rule target
    if matched then round sys router rule target events next w else next w

  unfoldable pub route : Router → MatchTarget → List Event → W → Go (W × Routed)
  route r target events w = route_rules r.name r.rules target events w
