-- ===== src/Store/Attributes/Reported.antt =====
-- `SetEndpointAttribute`, `ReportWeight` and `reportRPS` of pkg/yapr/core/sdk/server/sdk.go: what the
-- store has of an endpoint after any reports.
use yapr.Prelude.{
  ℕ, ◌+◌, String, string_eq, Bool, true, ◌&&◌, List, [], ◌∷◌, Option, none, some, or_default,
  length, length-append, ◌==◌, ==_iff, if◌then◌else◌, ◌≡◌, refl, ap, ◌∙◌, arith, inl, inr,
  Bool-cases,
}
use yapr.Endpoint.{Endpoint}
use yapr.Types.{AttributeInSelector}
use yapr.Store.Routes.{hget}
use yapr.Store.Attributes.{
  over, no_attribute, merged, Hashes, attribute_key, set_endpoint_attribute,
  set_endpoint_attribute-get,
}

-- A call of the server SDK.
pub data SdkReport : Type 0 where
  attribute : Endpoint → String → AttributeInSelector → SdkReport
  weight : Endpoint → String → ℕ → SdkReport
  rps : Endpoint → String → ℕ → SdkReport

abbrev pub sdk_set_endpoint_attribute : Hashes → Endpoint → String → AttributeInSelector → Hashes
sdk_set_endpoint_attribute h e selector new = set_endpoint_attribute h e selector new

-- `ReportWeight`
abbrev pub weight_attribute : ℕ → AttributeInSelector
weight_attribute cost = record { weight = some cost; rps = none; deadline = none }

unfoldable pub report_weight : Hashes → Endpoint → String → ℕ → Hashes
report_weight h e selector cost = sdk_set_endpoint_attribute h e selector (weight_attribute cost)

-- `reportRPS`
abbrev pub rps_attribute : ℕ → AttributeInSelector
rps_attribute n = record { weight = none; rps = some n; deadline = none }

unfoldable pub store_rps : Hashes → Endpoint → String → ℕ → Hashes
store_rps h e selector n = sdk_set_endpoint_attribute h e selector (rps_attribute n)

unfoldable pub report : Hashes → SdkReport → Hashes
report h (attribute e selector new) = sdk_set_endpoint_attribute h e selector new
report h (weight e selector cost) = report_weight h e selector cost
report h (rps e selector n) = store_rps h e selector n

unfoldable pub report_all : Hashes → List SdkReport → Hashes
report_all h [] = h
report_all h (r ∷ rs) = report_all (report h r) rs

-- what the store has of an endpoint in a selector
abbrev pub stored_attribute : Hashes → Endpoint → String → AttributeInSelector
stored_attribute h d name = or_default (hget h.fields (attribute_key d) name) no_attribute

abbrev concerns : Endpoint → String → Endpoint → String → Bool
concerns d name e selector = attribute_key e == attribute_key d && selector == name

-- The weight that a report gives an endpoint in a selector, if it does; then its RPS.
abbrev pub weight_of : Endpoint → String → SdkReport → Option ℕ
weight_of d name (attribute e selector new) =
    if concerns d name e selector then new.weight else none
weight_of d name (weight e selector cost) = if concerns d name e selector then some cost else none
weight_of d name (rps e selector n) = none

abbrev pub rps_of : Endpoint → String → SdkReport → Option ℕ
rps_of d name (attribute e selector new) = if concerns d name e selector then new.rps else none
rps_of d name (weight e selector cost) = none
rps_of d name (rps e selector n) = if concerns d name e selector then some n else none

-- the last value that a report has, or the former one
unfoldable pub last_value : (SdkReport → Option ℕ) → List SdkReport → Option ℕ → Option ℕ
last_value f [] former = former
last_value f (r ∷ rs) former = last_value f rs (over (f r) former)

set-stored :
    (h : Hashes) (d e : Endpoint) (name selector : String) (new : AttributeInSelector)
    → stored_attribute (set_endpoint_attribute h e selector new) d name ≡ (
        if concerns d name e selector
        then merged new (stored_attribute h e selector)
        else stored_attribute h d name)
set-stored h d e name selector new = elim (Bool-cases (concerns d name e selector)) [
  | inl same ↦ rw (set_endpoint_attribute-get h e d selector name new, same) refl
  | inr other ↦ rw (set_endpoint_attribute-get h e d selector name new, other) refl
]

stored_attribute-concerns :
    (h : Hashes) (d e : Endpoint) (name selector : String)
    → concerns d name e selector ≡ true
    → stored_attribute h e selector ≡ stored_attribute h d name
stored_attribute-concerns h d e name selector same =
    let keys : attribute_key e ≡ attribute_key d =
      (==_iff (attribute_key e) (attribute_key d)).0 (ground (arith, same)) in
    let names : selector ≡ name = (==_iff selector name).0 (ground (arith, same)) in
    rw (keys, names) refl

-- A field that is merged by itself.
module _ (field : AttributeInSelector → Option ℕ)
    (apart : (a b : AttributeInSelector) → field (merged a b) ≡ over (field a) (field b)) where
  set-field :
      (h : Hashes) (d e : Endpoint) (name selector : String) (new : AttributeInSelector)
      → field (stored_attribute (set_endpoint_attribute h e selector new) d name)
        ≡ over
            (if concerns d name e selector then field new else none)
            (field (stored_attribute h d name))
  set-field h d e name selector new = elim (Bool-cases (concerns d name e selector)) [
    | inl same ↦
        ap field (set-stored h d e name selector new)
        ∙ rw (same, stored_attribute-concerns h d e name selector same)
            (apart new (stored_attribute h d name))
    | inr other ↦ ap field (set-stored h d e name selector new) ∙ rw other refl
  ]

weight-report :
    (h : Hashes) (d : Endpoint) (name : String) (r : SdkReport)
    → (stored_attribute (report h r) d name).weight
      ≡ over (weight_of d name r) (stored_attribute h d name).weight
unfolding report report_weight store_rps
weight-report h d name (attribute e s new) =
    set-field (λ a. a.weight) (λ a b. refl) h d e name s new
weight-report h d name (weight e s n) =
    set-field (λ a. a.weight) (λ a b. refl) h d e name s (weight_attribute n)
weight-report h d name (rps e s n) =
    set-field (λ a. a.weight) (λ a b. refl) h d e name s (rps_attribute n)
    ∙ elim (Bool-cases (concerns d name e s)) [ inl c ↦ rw c refl | inr c ↦ rw c refl ]

rps-report :
    (h : Hashes) (d : Endpoint) (name : String) (r : SdkReport)
    → (stored_attribute (report h r) d name).rps
      ≡ over (rps_of d name r) (stored_attribute h d name).rps
unfolding report report_weight store_rps
rps-report h d name (attribute e s new) = set-field (λ a. a.rps) (λ a b. refl) h d e name s new
rps-report h d name (rps e s n) =
    set-field (λ a. a.rps) (λ a b. refl) h d e name s (rps_attribute n)
rps-report h d name (weight e s n) =
    set-field (λ a. a.rps) (λ a b. refl) h d e name s (weight_attribute n)
    ∙ elim (Bool-cases (concerns d name e s)) [ inl c ↦ rw c refl | inr c ↦ rw c refl ]

published-report :
    (h : Hashes) (r : SdkReport) → length (report h r).published ≡ length h.published + 1
unfolding report report_weight store_rps set_endpoint_attribute
published-report h (attribute e s new) = length-append h.published _
published-report h (weight e s n) = length-append h.published _
published-report h (rps e s n) = length-append h.published _

-- After any reports of attributes, weights and RPS, on any endpoints in any selectors, the store has
-- for an endpoint in a selector the last weight that was reported for it and the last RPS, each the
-- former one if none was, and each report has published one message.
pub report_all_lem :
    (h : Hashes) (rs : List SdkReport) (d : Endpoint) (name : String)
    → ((stored_attribute (report_all h rs) d name).weight
        ≡ last_value (weight_of d name) rs (stored_attribute h d name).weight)
      × ((stored_attribute (report_all h rs) d name).rps
          ≡ last_value (rps_of d name) rs (stored_attribute h d name).rps)
      × (length (report_all h rs).published ≡ length h.published + length rs)
unfolding report_all last_value
report_all_lem h [] d name = (refl, refl, omega arith)
report_all_lem h (r ∷ rs) d name =
    let (weights, rates, messages) = report_all_lem (report h r) rs d name in
    (
      weights ∙ ap (last_value (weight_of d name) rs) (weight-report h d name r),
      rates ∙ ap (last_value (rps_of d name) rs) (rps-report h d name r),
      omega (arith, messages, published-report h r),
    )
