-- ===== src/Tests/Selections.antt =====
-- Selections over a service with one endpoint, by a strategy that knows that endpoint only.
use yapr.Prelude.{
  true, false, [], ◌∷◌, none, some, ◌≡◌, refl, contains, ◌&&◌, if◌then◌else◌, string_eq,
}
use yapr.Prelude.Dict.{lookup, insert}
use yapr.Endpoint.{endpoint_eq}
use yapr.Errcode.{coded, Result, success, failure, err_unknown_strategy}
use yapr.Types.{Selector, good_endpoint_filter}
use yapr.Go.{Go, ok, deadlock}
use yapr.Service.{
  set_attribute_in_selector, Service, new_service, register_pod, update, add_endpoints,
  forget_attributes, attribute_of, get_attribute, version, attributes,
}
use yapr.Strategy.{Candidates, Selected, selected}
use yapr.Selector.{
  Strategy, State, passes, collect, endpoints_with_attribute, judge, endpoint_error,
  ensure_strategy, refresh, refresh_strategy, select_service,
}
use yapr.Selector.Filtering.{holds, lookup-endpoints_with_attribute}
use yapr.Selector.Selecting.{Usable, select_service-Usable, select_service-unbuilt}
use yapr.Tests.{alpha, beta, request, settings}

abbrev serving : Service
serving = register_pod (new_service "echo") "pod-a" (alpha ∷ [])

-- The same service, with ten requests reported for the endpoint.
abbrev reported : Service
reported =
    set_attribute_in_selector serving alpha "echo-all"
      (record { weight = none; rps = some 10; deadline = none })

abbrev known : Candidates
known = (alpha, attribute_of serving.attr_map "echo-all" alpha) ∷ []

lookup-endpoints_with_attribute_example : lookup alpha known ≡ (
    if contains alpha serving.endpoints
      && holds (
          passes
            (good_endpoint_filter ∷ [])
            settings
            alpha
            (attribute_of serving.attr_map settings.name alpha))
    then some (attribute_of serving.attr_map settings.name alpha)
    else none)
unfolding endpoints_with_attribute attributes collect passes good_endpoint_filter register_pod
    update add_endpoints forget_attributes insert lookup attribute_of
lookup-endpoints_with_attribute_example =
    lookup-endpoints_with_attribute (good_endpoint_filter ∷ []) settings serving serving known alpha
      refl

-- The strategy's state is what it was given last.
abbrev first_known : Candidates → Selected
first_known [] = record {
  endpoint = none;
  headers = none;
  error = some (coded err_unknown_strategy);
}
first_known ((e, a) ∷ c) = selected e

abbrev first_one : Strategy Candidates
first_one = record {
  select = λ c target. ok (c, first_known c);
  endpoint_filters = good_endpoint_filter ∷ [];
  update = λ c candidates. ok candidates;
}

abbrev build : Selector → Result Candidates
build s = success []

abbrev fresh : State Candidates
fresh = record {
  settings = settings;
  locked = false;
  last_version = 0;
  last_update = none;
  bound = true;
  strategy = none;
}

abbrev outcome_of :
    Go (State Candidates × Service × Selected) → State Candidates × Service × Selected
outcome_of (ok (st, service, result)) = (st, service, result)
outcome_of _ = (fresh, serving, selected beta)

abbrev after_select : State Candidates × Service × Selected
after_select = outcome_of (select_service first_one build 1000 1001 fresh reported request)

select_service-Usable_example : Usable settings after_select.1 alpha
unfolding select_service ensure_strategy refresh refresh_strategy version endpoints_with_attribute
    attributes collect passes good_endpoint_filter register_pod update add_endpoints
    forget_attributes insert lookup attribute_of judge set_attribute_in_selector endpoint_error
    get_attribute
select_service-Usable_example =
    select_service-Usable first_one build 1000 1001 fresh after_select.0 reported after_select.1
      request after_select.2 alpha refl refl refl

abbrev no_builder : Selector → Result Candidates
no_builder s = failure (coded err_unknown_strategy)

select_service-unbuilt_example :
    (st' : State Candidates) × (select_service first_one no_builder 0 1 fresh serving request
      ≡ ok (
        st',
        serving,
        record { endpoint = none; headers = none; error = some (coded err_unknown_strategy) },
      ))
    × (select_service first_one build 5 6 st' serving request ≡ deadlock)
select_service-unbuilt_example =
    select_service-unbuilt first_one no_builder build 0 1 5 6 fresh serving serving request request
      (coded err_unknown_strategy) refl refl refl
