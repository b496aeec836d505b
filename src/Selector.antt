-- ===== src/Selector.antt =====
-- pkg/yapr/core/selector.go: a selector between a service and a strategy. A step has the selector's
-- lock for itself; `locked` says that a former call left it locked. Clock readings are arguments,
-- in thousandths of a second.
pub mod Filtering
pub mod Selecting
pub mod Limits
use yapr.Prelude.{
  ℕ, ◌+◌, String, Bool, true, false, List, [], ◌∷◌, Option, none, some, string_eq, if◌then◌else◌,
  ltb, leb, not,
}
use yapr.Prelude.Dict.{Dict, insert, lookup}
use yapr.Endpoint.{Endpoint, endpoint_eq}
use yapr.Errcode.{
  Error, coded, Result, success, failure, err_endpoint_unavailable, err_endpoint_rps_limit,
}
use yapr.Types.{MatchTarget, Selector, Attribute, EndpointFilter, rps_of}
use yapr.Service.{Service, attributes, version, get_attribute}
use yapr.Go.{Go, ok, panic, deadlock, raised, nil_dereference, index_out_of_range, ◌>>=◌, or_panic}
use yapr.Strategy.{Candidates, Selected}
use yapr.Registry.{Table, get_service}

-- The interface `Strategy`, for a type of its states.
pub record Strategy (S : Type 0) : Type 0 where
  pub select : S → MatchTarget → Go (S × Selected)
  pub endpoint_filters : List EndpointFilter
  pub update : S → Candidates → Go S

pub record State (S : Type 0) : Type 0 where
  pub settings : Selector
  pub locked : Bool
  pub last_version : ℕ
  pub last_update : Option ℕ
  -- whether `service` has been set
  pub bound : Bool
  pub strategy : Option S

-- The inner loop of `EndpointsWithAttribute`.
unfoldable pub passes : List EndpointFilter → EndpointFilter
passes [] s e a = ok true
passes (filter ∷ filters) s e a =
    let rest = passes filters s e a in filter s e a >>= λ good. if good then rest else ok false

-- The outer loop: `result` is the map so far.
unfoldable pub collect :
    List EndpointFilter → Selector → List Endpoint → List Attribute → Candidates → Go Candidates
collect filters s [] attributes result = ok result
collect filters s (e ∷ endpoints) [] result = panic index_out_of_range
collect filters s (e ∷ endpoints) (a ∷ attributes) result = do
  good ← passes filters s e a
  collect filters s endpoints attributes (if good then insert e a result else result)

-- The service after the call, and the map.
unfoldable pub endpoints_with_attribute :
    List EndpointFilter → Selector → Service → Go (Service × Candidates)
endpoints_with_attribute filters s service =
    let (service', (endpoints, attributes)) = attributes service s.name in
    do result ← collect filters s endpoints attributes []; ok (service', result)

-- `for k, v := range more { headers[k] = v }`
unfoldable pub merge : Dict String String → Dict String String → Dict String String
merge [] headers = headers
merge ((k, v) ∷ more) headers = merge more (insert k v headers)

unfoldable pub base_headers : Selector → Dict String String
base_headers s =
    merge s.headers
      (("yapr-strategy", s.strategy) ∷ ("yapr-selector", s.name) ∷ ("yapr-service", s.service) ∷ [])

-- Behind the availability test of `Select`: the error, if the requests of the endpoint reach the limit.
abbrev pub reaches : Option ℕ → ℕ → Option Error
reaches none limit = none
reaches (some rps) limit = if leb limit rps then some (coded err_endpoint_rps_limit) else none

abbrev pub limit_error : Option ℕ → Attribute → Go (Option Error)
limit_error none attribute = ok none
limit_error (some limit) attribute = do rps ← rps_of attribute; ok (reaches rps limit)

abbrev pub available_error : Selector → Attribute → Go (Option Error)
available_error s attribute =
    if not attribute.common.available
    then ok (some (coded err_endpoint_unavailable))
    else limit_error s.max_requests attribute

unfoldable pub endpoint_error : Selector → Service → Endpoint → Go (Option Error)
endpoint_error s service endpoint = do
  attribute ← or_panic (get_attribute service endpoint s.name) nil_dereference
  available_error s attribute

-- `if endpoint != nil && err == nil { ... }`
abbrev pub checked : Selector → Service → Option Endpoint → Option Error → Go (Option Error)
checked s service none err = ok err
checked s service (some endpoint) none = endpoint_error s service endpoint
checked s service (some endpoint) (some err) = ok (some err)

abbrev pub appended : Option (Dict String String) → Dict String String → Dict String String
appended none headers = headers
appended (some more) headers = merge more headers

-- What `Select` makes of the strategy's results.
unfoldable pub judge : Selector → Service → Selected → Go Selected
judge s service found = do
  err ← checked s service found.endpoint found.error
  ok (record {
    endpoint = found.endpoint;
    headers = some (appended found.headers (base_headers s));
    error = err;
  })

abbrev pub stale : ℕ → Option ℕ → Bool
stale now none = true
stale now (some last) = ltb (last + 50) now

-- The service that the pointer is to has changed.
abbrev pub put_service : String → Service → Table Service → Table Service
put_service name service none = none
put_service name service (some services) = some (insert name service services)

module _ {S : Type 0} where
  -- `s.service` after it has been set: the table keeps its entries.
  abbrev pub held_service :
      State S → Table Service → Result Service → Go (State S × Table Service × Service)
  held_service st services (success service) = ok (st, services, service)
  held_service st services (failure err) = panic nil_dereference

  abbrev pub bind_service :
      State S → Table Service → Result Service → Go (State S × Table Service × Service)
  bind_service st services (success service) = ok (record st { bound = true }, services, service)
  bind_service st services (failure err) = panic (raised err)

  -- The strategy is built at the first use; the lock stays where that fails.
  abbrev pub with_strategy : State S → Result S → Option S → Go (State S × Option Error)
  with_strategy st built (some strategy) = ok (st, none)
  with_strategy st (success strategy) none =
      if st.locked then deadlock else ok (record st { strategy = some strategy }, none)
  with_strategy st (failure err) none =
      if st.locked then deadlock else ok (record st { locked = true }, some err)

module _ {S : Type 0} (ops : Strategy S) (build : Selector → Result S) where
  open ops use {select, endpoint_filters, update}

  -- `MustService`: the selector, the table of services, and the service that the pointer is to.
  unfoldable pub must_service :
      Result (Dict String Service)
      → State S
      → Table Service
      → Go (State S × Table Service × Service)
  must_service loaded st services =
      let (services', found) = get_service loaded services st.settings.service in
      let held = held_service st services' found in
      let new_one = bind_service st services' found in
      if st.bound then held else if st.locked then deadlock else new_one

  unfoldable pub ensure_strategy : State S → Go (State S × Option Error)
  ensure_strategy st = with_strategy st (build st.settings) st.strategy

  -- The update of the strategy, once the selector has its lock.
  unfoldable pub refresh_strategy : ℕ → ℕ → State S → Service → Go (State S × Service)
  refresh_strategy version after st service = do
    strategy ← or_panic st.strategy nil_dereference
    (service', candidates) ← endpoints_with_attribute endpoint_filters st.settings service
    strategy' ← update strategy candidates
    ok (
      record st { strategy = some strategy'; last_version = version; last_update = some after },
      service',
    )

  -- `now` is read for `time.Since`, and `after` when the update is done.
  unfoldable pub refresh : ℕ → ℕ → State S → Service → Go (State S × Service)
  refresh now after st service =
      let (service', version) = version service in
      let updated = refresh_strategy version after st service' in
      if stale now st.last_update
      then (if ltb st.last_version version
          then (if st.locked then deadlock else updated)
          else ok (st, service'))
      else ok (st, service)

  -- `Select` behind `MustService`.
  unfoldable pub select_service :
      ℕ → ℕ → State S → Service → MatchTarget → Go (State S × Service × Selected)
  select_service now after st service target = do
    (st₁, failed) ← ensure_strategy st
    elim failed [
      | some err ↦ ok (st₁, service, record { endpoint = none; headers = none; error = some err })
      | none ↦ do
        (st₂, service') ← refresh now after st₁ service
        strategy ← or_panic st₂.strategy nil_dereference
        (strategy', found) ← select strategy target
        result ← judge st₂.settings service' found
        ok (record st₂ { strategy = some strategy' }, service', result)
    ]

  unfoldable pub select_endpoint :
      Result (Dict String Service)
      → ℕ
      → ℕ
      → State S
      → Table Service
      → MatchTarget
      → Go (State S × Table Service × Selected)
  select_endpoint loaded now after st services target = do
    (st₁, services', service) ← must_service loaded st services
    (st₂, service', result) ← select_service now after st₁ service target
    ok (st₂, put_service st₁.settings.service service' services', result)

abbrev pub told : {S : Type 0} → (S → S) → Option S → Option S
told notify none = none
told notify (some strategy) = some (notify strategy)

-- `NotifyRetry`; `notify` is that of the strategy, or does nothing where the strategy has none.
unfoldable pub notify_retry : {S : Type 0} → (S → S) → State S → Go (State S)
notify_retry notify st =
    if st.locked then deadlock else ok (record st { strategy = told notify st.strategy })
