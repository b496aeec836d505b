-- ===== src/Example/Pods/Weights.antt =====
-- What `setWeight` leaves in the store.
use yapr.Prelude.{
  ℕ, ◌%◌, ◌^◌, string_eq, List, [], ◌∷◌, Option, some, map, contains, if◌then◌else◌, ◌≡◌, refl, ◌∙◌,
  arith,
}
use yapr.Endpoint.{Endpoint}
use yapr.Store.Attributes.{Hashes, attribute_key}
use yapr.Store.Attributes.Reported.{weight_of, last_value, stored_attribute, report_all_lem}
use yapr.Example.Pods.{weight_reports, set_weight}

last_value-weight_reports :
    (w : ℕ) (es : List Endpoint) (d : Endpoint) (former : Option ℕ)
    → last_value (weight_of d "echo-weighted") (weight_reports w es) former
      ≡ (if contains (attribute_key d) (map attribute_key es) then some (w % 2 ^ 32) else former)
unfolding last_value weight_reports
last_value-weight_reports w [] d former = refl
last_value-weight_reports w (e ∷ es) d former = ground (
  arith,
  last_value-weight_reports w es d (some (w % 2 ^ 32)),
  last_value-weight_reports w es d former,
)

-- After `setWeight`, an endpoint that it was given has the weight in the selector "echo-weighted", and
-- any other endpoint the weight that it had.
pub set_weight_lem :
    (h : Hashes) (w : ℕ) (es : List Endpoint) (d : Endpoint)
    → (stored_attribute (set_weight h w es) d "echo-weighted").weight ≡ (
        if contains (attribute_key d) (map attribute_key es)
        then some (w % 2 ^ 32)
        else (stored_attribute h d "echo-weighted").weight)
unfolding set_weight
set_weight_lem h w es d =
    (report_all_lem h (weight_reports w es) d "echo-weighted").0
    ∙ last_value-weight_reports w es d _
