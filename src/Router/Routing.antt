-- ===== src/Router/Routing.antt =====
-- Which rule `Route` takes, and what it returns for it.
use yapr.Prelude.{
  ℕ, String, Bool, true, false, List, [], ◌∷◌, ◌++◌, Option, none, some, ◌≡◌, refl, ap, ◌∙◌, inl,
  inr, if◌then◌else◌, All, Option-cases, or_default, not, ◌==◌, nat_eq,
}
use yapr.Endpoint.{Endpoint}
use yapr.Errcode.{Error, coded, err_no_rule_matched}
use yapr.Types.{MatchTarget, Rule, Router, Selector, ErrorHandler, retry, pass, block, throw}
use yapr.Go.{ok}
use yapr.Strategy.{Selected}
use yapr.Router.Recovery.{RetryEnd, retry_select-RetryEnd}
use yapr.Router.{
  match_rule, Selectors, Event, Routed, routed, refused, rule_error, thrown, wait, with_route,
  finish, handle, round, route_rules, route,
}

-- The endpoint's own port, or the selector's.
abbrev pub port_of : Selector → Endpoint → ℕ
port_of s e = if not (e.port == 0) then e.port else s.port

-- What a wait leaves of a route.
abbrev pub after_wait : Option Error → Routed → Routed
after_wait none route = route
after_wait (some failure) route = refused failure

module _ (compile : String → Option (String → Bool)) {W : Type 0} (sys : Selectors W) where
  open sys use {settings, select}

  abbrev pub Skipped : MatchTarget → Rule → Type 0
  Skipped target rule = match_rule compile rule target ≡ ok false

  -- Where no rule matches, `Route` returns "no rule matched", and no selector is asked.
  pub route-unmatched :
      (r : Router) (target : MatchTarget) (events : List Event) (w : W)
      → All (Skipped target) r.rules
      → route compile sys r target events w ≡ ok (w, refused (coded err_no_rule_matched))
  unfolding route route_rules
  route-unmatched r target events w h = go r.rules h
    where
      go :
          (rules : List Rule)
          → All (Skipped target) rules
          → route_rules compile sys r.name rules target events w
            ≡ ok (w, refused (coded err_no_rule_matched))
      go [] h = refl
      go (rule ∷ rules) h = rw (h.0) (go rules h.1)

  skip :
      (router : String) (before rules : List Rule) (target : MatchTarget) (events : List Event)
      (w : W)
      → All (Skipped target) before
      → route_rules compile sys router (before ++ rules) target events w
        ≡ route_rules compile sys router rules target events w
  unfolding route_rules
  skip router [] rules target events w h = refl
  skip router (rule ∷ before) rules target events w h =
      rw (h.0) (skip router before rules target events w h.1)

  -- The first rule that matches is `rule`, behind the rules `before`, and its selector's settings are `s`.
  pub record Decided (router : Router) (target : MatchTarget) (w : W) : Type 0 where
    pub before : List Rule
    pub rule : Rule
    pub after : List Rule
    pub rules : router.rules ≡ before ++ rule ∷ after
    pub skipped : All (Skipped target) before
    pub matched : match_rule compile rule target ≡ ok true
    pub selector : Selector
    pub known : settings w rule.selector ≡ some selector
    pub w' : W
    pub result : Selected
    pub selection : select w rule.selector target ≡ ok (w', result)

  route-Decided :
      (r : Router) (target : MatchTarget) (events : List Event) (w : W) (d : Decided r target w)
      → route compile sys r target events w
        ≡ round sys r.name d.rule target events
            (λ v. route_rules compile sys r.name d.after target events v)
            w
  unfolding route route_rules
  route-Decided r target events w d =
      ap (λ rules. route_rules compile sys r.name rules target events w) d.rules
      ∙ skip r.name d.before (d.rule ∷ d.after) target events w d.skipped
      ∙ rw d.matched refl

  -- Let the selector of the first rule that matches select an endpoint without an error. Then `Route`
  -- returns that endpoint, with the selector's service, the endpoint's own port or else the selector's,
  -- and the headers of the selection with the names of the router and of the endpoint.
  pub route-selected :
      (r : Router) (target : MatchTarget) (events : List Event) (w : W) (d : Decided r target w)
      (e : Endpoint)
      → d.result.error ≡ none
      → d.result.endpoint ≡ some e
      → route compile sys r target events w
        ≡ ok (
          d.w',
          routed d.selector.service e (port_of d.selector e) (with_route r.name e d.result.headers),
        )
  unfolding round finish
  route-selected r target events w d e good found =
      route-Decided r target events w d ∙ rw (d.known, d.selection, good, found) refl

  -- The error of the selection, and what the rule's `Catch` has for it.
  pub record Caught (router : Router) (target : MatchTarget) (w : W) (d : Decided router target w)
      : Type 0 where
    pub err : Error
    pub failed : d.result.error ≡ some err
    pub handler : ErrorHandler
    pub caught : d.rule.catch (rule_error err) ≡ some handler

  module _ (r : Router) (target : MatchTarget) (events : List Event) (w : W)
      (d : Decided r target w) where
    -- Where `Catch` has no handler for the selection's error, `Route` returns that error.
    pub route-uncaught :
        (err : Error)
        → d.result.error ≡ some err
        → d.rule.catch (rule_error err) ≡ none
        → route compile sys r target events w ≡ ok (d.w', refused err)
    unfolding round
    route-uncaught err failed nothing =
        route-Decided r target events w d ∙ rw (d.known, d.selection, failed, nothing) refl

    module _ (c : Caught r target w d) where
      -- Under `throw`, `Route` returns the handler's code and message as its error, or the selection's
      -- error if the handler has neither.
      pub route-throw :
          c.handler.solution ≡ throw
          → route compile sys r target events w ≡ ok (d.w', refused (thrown c.handler c.err))
      unfolding round handle
      route-throw h =
          route-Decided r target events w d ∙ rw (d.known, d.selection, c.failed, c.caught, h) refl

      -- Under `pass`, `Route` goes on as if its rules were those behind the rule.
      pub route-pass :
          c.handler.solution ≡ pass
          → route compile sys r target events w
            ≡ route compile sys (record r { rules = d.after }) target events d.w'
      unfolding round handle route
      route-pass h =
          route-Decided r target events w d ∙ rw (d.known, d.selection, c.failed, c.caught, h) refl

      -- Under `block`, with an endpoint from the selection and the selector's service known, `Route`
      -- returns that endpoint if the wait ends without an error, and otherwise the error of the wait.
      pub route-block :
          (e : Endpoint)
          → c.handler.solution ≡ block
          → sys.serves d.w' d.selector.service ≡ true
          → d.result.endpoint ≡ some e
          → route compile sys r target events w
            ≡ ok (
              d.w',
              after_wait (wait (some e) events) (
                  routed d.selector.service e
                    (port_of d.selector e)
                    (with_route r.name e d.result.headers)),
            )
      unfolding round handle finish
      route-block e h known found =
          route-Decided r target events w d ∙ elim (Option-cases (wait (some e) events)) [
            | inl woken ↦
                rw
                  (
                    d.known,
                    d.selection,
                    c.failed,
                    c.caught,
                    h,
                    known,
                    ap (λ o. wait o events) found,
                    woken,
                    found,
                  )
                  refl
            | inr (failure, is) ↦
                rw
                  (
                    d.known,
                    d.selection,
                    c.failed,
                    c.caught,
                    h,
                    known,
                    ap (λ o. wait o events) found,
                    is,
                  )
                  refl
          ]

      -- Under `retry`, `Route` returns the endpoint of the selection that the retries end with, also
      -- where that selection has an error.
      pub route-retry :
          (w' : W) (last : Selected) (e : Endpoint)
          → c.handler.solution ≡ retry
          → RetryEnd sys
              (or_default c.handler.interval 1000)
              d.rule.selector
              target
              (or_default c.handler.times 3)
              d.w'
              d.result
              w'
              last
          → last.endpoint ≡ some e
          → route compile sys r target events w
            ≡ ok (
              w',
              routed d.selector.service e (port_of d.selector e) (with_route r.name e last.headers),
            )
      unfolding round handle finish
      route-retry w' last e h ended found =
          let retried =
            (retry_select-RetryEnd sys (or_default c.handler.interval 1000) d.rule.selector target
                (or_default c.handler.times 3) d.w' w' d.result last).1
              ended in
          route-Decided r target events w d
          ∙ rw (d.known, d.selection, c.failed, c.caught, h, retried, found) refl
