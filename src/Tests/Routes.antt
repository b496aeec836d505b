-- ===== src/Tests/Routes.antt =====
-- Matching and routing over selectors that fail twice.
use yapr.Prelude.{
  ℕ, suc, String, Bool, true, false, List, [], ◌∷◌, Option, none, some, ◌≡◌, ◌↔◌, refl, ◌==◌,
  string_eq, ltb, if◌then◌else◌,
}
use yapr.Prelude.Dict.{lookup}
use yapr.Endpoint.{endpoint_eq}
use yapr.Errcode.{coded, err_no_endpoint_available}
use yapr.Types.{Matcher, Rule, Router, Solution, retry, ErrorHandler}
use yapr.Go.{ok}
use yapr.Strategy.{Selected}
use yapr.Router.{
  match_target, match_any, match_rule, regex_headers, match_headers, Selectors, Event, elapsed,
  updated, routed, retry_select, with_route, route,
}
use yapr.Router.Matching.{Matches, match_target-Matches}
use yapr.Router.Recovery.{RetryEnd, retry_select-RetryEnd}
use yapr.Router.Routing.{Decided, Caught, route-selected, route-retry}
use yapr.Router.Origin.{Origin, route-Origin}
use yapr.Tests.{alpha, request, settings}

-- A pattern matches itself.
abbrev pub compile : String → Option (String → Bool)
compile pattern = some (λ text. pattern == text)

abbrev echo : Matcher
echo = record { uri = "/echo"; port = 0; headers = ("user", "42") ∷ [] }

abbrev other : Matcher
other = record { uri = "/other"; port = 0; headers = [] }

match_target-Matches_example :
    (match_target compile echo request ≡ ok true) ↔ Matches compile echo request
match_target-Matches_example = match_target-Matches compile echo request

compiled : (pattern : String) → (test : String → Bool) × (compile pattern ≡ some test)
compiled pattern = (λ text. pattern == text, refl)

-- Selections fail until the time is 2.
abbrev selection : ℕ → Selected
selection w = record {
  endpoint = some alpha;
  headers = some [];
  error = if ltb w 2 then some (coded err_no_endpoint_available) else none;
}

abbrev pub sys : Selectors ℕ
sys = record {
  settings = λ w name. some settings;
  select = λ w name target. ok (suc w, selection w);
  serves = λ w name. true;
  sleep = λ w interval. w;
}

abbrev handled_by : Solution → ErrorHandler
handled_by solution = record {
  solution = solution;
  times = some 3;
  interval = none;
  timeout = none;
  message = none;
  code = some 42;
}

abbrev rule_of : Matcher → Option ErrorHandler → Rule
rule_of m handler = record { matchers = m ∷ []; selector = "echo-all"; catch = λ err. handler }

abbrev pub router_of : Option ErrorHandler → Router
router_of handler = record { name = "echo"; rules = rule_of other none ∷ rule_of echo handler ∷ [] }

unmatched : match_rule compile (rule_of other none) request ≡ ok false
unfolding match_rule match_any match_target
unmatched = refl

matched :
    (handler : Option ErrorHandler) → match_rule compile (rule_of echo handler) request ≡ ok true
unfolding match_rule match_any match_target regex_headers match_headers lookup
matched handler = refl

abbrev decided :
    (handler : Option ErrorHandler) (w : ℕ) → Decided compile sys (router_of handler) request w
decided handler w = record {
  before = rule_of other none ∷ [];
  rule = rule_of echo handler;
  after = [];
  rules = refl;
  skipped = (unmatched, tt);
  matched = matched handler;
  selector = settings;
  known = refl;
  w' = suc w;
  result = selection w;
  selection = refl;
}

abbrev caught :
    (solution : Solution)
    → Caught compile sys
        (router_of (some (handled_by solution)))
        request
        0
        (decided (some (handled_by solution)) 0)
caught solution = record {
  err = coded err_no_endpoint_available;
  failed = refl;
  handler = handled_by solution;
  caught = refl;
}

route-selected_example :
    route compile sys (router_of none) request [] 5
    ≡ ok (6, routed "echo" alpha 8080 (with_route "echo" alpha (some [])))
route-selected_example =
    route-selected compile sys (router_of none) request [] 5 (decided none 5) alpha refl refl

pub routed_to_alpha :
    route compile sys (router_of none) request [] 5
    ≡ ok (6, routed "echo" alpha 8080 (with_route "echo" alpha (some [])))
routed_to_alpha =
    route-selected compile sys (router_of none) request [] 5 (decided none 5) alpha refl refl

route-Origin_example :
    Origin compile sys
      (router_of none).rules
      request
      (routed "echo" alpha 8080 (with_route "echo" alpha (some [])))
route-Origin_example =
    route-Origin compile sys (router_of none) request [] 5 6
      (routed "echo" alpha 8080 (with_route "echo" alpha (some []))) routed_to_alpha refl

abbrev arrivals : List Event
arrivals = updated [] ∷ updated ((alpha, tt) ∷ []) ∷ elapsed ∷ []

recovered : RetryEnd sys 1000 "echo-all" request 3 1 (selection 0) 3 (selection 2)
unfolding retry_select
recovered =
    (retry_select-RetryEnd sys 1000 "echo-all" request 3 1 3 (selection 0) (selection 2)).0 refl

route-retry_example :
    route compile sys (router_of (some (handled_by retry))) request [] 0
    ≡ ok (3, routed "echo" alpha 8080 (with_route "echo" alpha (some [])))
route-retry_example =
    route-retry compile sys (router_of (some (handled_by retry))) request [] 0
      (decided (some (handled_by retry)) 0) (caught retry) 3 (selection 2) alpha refl recovered refl
