-- ===== src/Router/Origin.antt =====
-- Where the service and the port of a route come from.
use yapr.Prelude.{
  ℕ, suc, String, Bool, true, false, List, [], ◌∷◌, Option, some, ◌≡◌, refl, ap, ◌∙◌, ◌⊎◌, inl, inr,
  arith, get_elem?, Option-cases, Bool-cases, or_default,
}
use yapr.Errcode.{Error}
use yapr.Types.{
  MatchTarget, Rule, Router, Selector, ErrorHandler, retry, pass, block, throw, panics,
  other_solution, Solution,
}
use yapr.Go.{Go, ok, >>=-eq-ok, or_panic, ok_injective, nil_dereference, or_panic-eq-ok}
use yapr.Strategy.{Selected}
use yapr.Router.{
  match_rule, Selectors, Event, Routed, routed, refused, rule_error, wait, retry_select, finish,
  handle, round, route_rules, route,
}
use yapr.Router.Routing.{port_of}

module _ {W : Type 0} (sys : Selectors W) where
  open sys use {settings, select, serves}

  -- The service and the port are the selector's, but for an endpoint with a port of its own.
  abbrev pub From : Selector → Routed → Type 0
  From s (routed service e port headers) = (service ≡ s.service) × (port ≡ port_of s e)
  From s (refused err) = Unit

  abbrev pub is_route : Routed → Bool
  is_route (routed service e port headers) = true
  is_route (refused err) = false

  finish-From :
      (router : String) (s : Selector) (w w' : W) (result : Selected) (out : Routed)
      → finish sys router s w result ≡ ok (w', out)
      → From s out
  unfolding finish
  finish-From router s w w' result out h =
      let (e, found, same) = >>=-eq-ok (or_panic result.endpoint nil_dereference) _ h in
      rw (← ap (λ p. p.1) (ok_injective same)) (refl, refl)

  handle-From :
      (router : String) (rule : Rule) (s : Selector) (target : MatchTarget) (events : List Event)
      (next : W → Go (W × Routed)) (w w' : W) (result : Selected) (err : Error)
      (handler : ErrorHandler) (out : Routed)
      → handle sys router rule s target events next w result err handler ≡ ok (w', out)
      → From s out ⊎ ((v : W) × (next v ≡ ok (w', out)))
  unfolding handle
  handle-From router rule s target events next w w' result err handler out h =
      by_solution handler.solution refl
    where
      by_solution :
          (x : Solution) → handler.solution ≡ x → From s out ⊎ ((v : W) × (next v ≡ ok (w', out)))
      by_solution pass e = inr (w, rw e at h)
      by_solution throw e = inl (rw (← ap (λ p. p.1) (ok_injective (rw e at h))) tt)
      by_solution panics e = absurd (ground (arith, rw e at h))
      by_solution retry e =
          let ((v, last), ended, later) =
            >>=-eq-ok
              (retry_select sys (or_default handler.times 3) (or_default handler.interval 1000)
                rule.selector target w result)
              _ (rw e at h) in
          inl (finish-From router s v w' last out later)
      by_solution block e = elim (Bool-cases (serves w s.service)) [
        | inl known ↦ elim (Option-cases (wait result.endpoint events)) [
          | inl woken ↦ inl (finish-From router s w w' result out (rw (e, known, woken) at h))
          | inr (failure, is) ↦
              inl (rw (← ap (λ p. p.1) (ok_injective (rw (e, known, is) at h))) tt)
        ]
        | inr unknown ↦ inr (w, rw (e, unknown) at h)
      ]
      by_solution (other_solution name) e = inl (finish-From router s w w' result out (rw e at h))

  round-From :
      (router : String) (rule : Rule) (target : MatchTarget) (events : List Event)
      (next : W → Go (W × Routed)) (w w' : W) (out : Routed)
      → round sys router rule target events next w ≡ ok (w', out)
      → ((s : Selector) × (settings w rule.selector ≡ some s) × From s out)
        ⊎ ((v : W) × (next v ≡ ok (w', out)))
  unfolding round
  round-From router rule target events next w w' out h =
      let (s, known, later) = >>=-eq-ok (or_panic (settings w rule.selector) nil_dereference) _ h in
      let ((v, result), selection, last) = >>=-eq-ok (select w rule.selector target) _ later in
      let is_known = or_panic-eq-ok (settings w rule.selector) nil_dereference known in
      elim (Option-cases result.error) [
        | inl good ↦ inl (s, is_known, finish-From router s v w' result out (rw good at last))
        | inr (err, bad) ↦ elim (Option-cases (rule.catch (rule_error err))) [
          | inl uncaught ↦
              inl (s, is_known, rw (← ap (λ p. p.1) (ok_injective (rw (bad, uncaught) at last))) tt)
          | inr (handler, caught) ↦
              elim (handle-From router rule s target events next v w' result err handler out
                (rw (bad, caught) at last)) [
                  | inl from ↦ inl (s, is_known, from)
                  | inr later_rule ↦ inr later_rule
                ]
        ]
      ]

module _ (compile : String → Option (String → Bool)) {W : Type 0} (sys : Selectors W) where
  open sys use {settings}

  -- A rule that matches, with settings of its selector at some time, from which the route comes.
  pub record Origin (rules : List Rule) (target : MatchTarget) (out : Routed) : Type 0 where
    pub place : ℕ
    pub rule : Rule
    pub stands : get_elem? rules place ≡ some rule
    pub matched : match_rule compile rule target ≡ ok true
    pub w : W
    pub selector : Selector
    pub known : settings w rule.selector ≡ some selector
    pub from : From sys selector out

  later_rule :
      (rule : Rule) (rules : List Rule) (target : MatchTarget) (out : Routed)
      → Origin rules target out
      → Origin (rule ∷ rules) target out
  later_rule rule rules target out o = record {
    place = suc o.place;
    rule = o.rule;
    stands = o.stands;
    matched = o.matched;
    w = o.w;
    selector = o.selector;
    known = o.known;
    from = o.from;
  }

  route_rules-Origin :
      (router : String) (rules : List Rule) (target : MatchTarget) (events : List Event) (w w' : W)
      (out : Routed)
      → route_rules compile sys router rules target events w ≡ ok (w', out)
      → is_route sys out ≡ true
      → Origin rules target out
  unfolding route_rules
  route_rules-Origin router [] target events w w' out h is =
      absurd (ground (arith, ap (λ p. is_route sys p.1) (ok_injective h), is))
  route_rules-Origin router (rule ∷ rules) target events w w' out h is =
      let (b, matched, later) = >>=-eq-ok (match_rule compile rule target) _ h in
      elim (Bool-cases b) [
        | inl one ↦
            elim (round-From sys router rule target events
              (λ v. route_rules compile sys router rules target events v) w w' out
              (rw one at later)) [
                | inl (s, known, from) ↦ record {
                  place = 0;
                  rule = rule;
                  stands = refl;
                  matched = matched ∙ ap ok one;
                  w = w;
                  selector = s;
                  known = known;
                  from = from;
                }
                | inr (v, again) ↦
                    later_rule rule rules target out
                      (route_rules-Origin router rules target events v w' out again is)
              ]
        | inr other ↦
            later_rule rule rules target out
              (route_rules-Origin router rules target events w w' out (rw other at later) is)
      ]

  -- Whenever `Route` returns a route, one of the router's rules matches the request, the route's
  -- service is that of the rule's selector, and its port is the endpoint's own port, or the selector's
  -- where the endpoint has none.
  pub route-Origin :
      (r : Router) (target : MatchTarget) (events : List Event) (w w' : W) (out : Routed)
      → route compile sys r target events w ≡ ok (w', out)
      → is_route sys out ≡ true
      → Origin r.rules target out
  unfolding route
  route-Origin r target events w w' out h is =
      route_rules-Origin r.name r.rules target events w w' out h is
