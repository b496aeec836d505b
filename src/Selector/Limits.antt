-- ===== src/Selector/Limits.antt =====
-- The limit on requests, where no requests have been reported.
use yapr.Prelude.{ℕ, ◌≡◌, refl, none, some, true, String, string_eq}
use yapr.Prelude.Dict.{lookup}
use yapr.Endpoint.{Endpoint, endpoint_eq}
use yapr.Types.{Attributes, Selector}
use yapr.Service.{Service, get_attribute}
use yapr.Go.{panic, nil_dereference}
use yapr.Strategy.{selected}
use yapr.Selector.{judge, endpoint_error}

get_attribute-unreported :
    (service : Service) (e : Endpoint) (name : String) (m : Attributes)
    → lookup e service.attr_map ≡ some m
    → lookup name m.in_selector ≡ none
    → get_attribute service e name ≡ some (record { common = m.common; in_selector = none })
unfolding get_attribute
get_attribute-unreported service e name m known unreported = rw (known, unreported) refl

-- Let the strategy select an endpoint that the service knows and that is available, but that has no
-- attribute in this selector, and let the selector have a limit. Then `Select` panics.
pub unreported_limit :
    (s : Selector) (service : Service) (e : Endpoint) (m : Attributes) (limit : ℕ)
    → lookup e service.attr_map ≡ some m
    → m.common.available ≡ true
    → lookup s.name m.in_selector ≡ none
    → s.max_requests ≡ some limit
    → judge s service (selected e) ≡ panic nil_dereference
unfolding judge endpoint_error
unreported_limit s service e m limit known available unreported limited =
    simp (get_attribute-unreported service e s.name m known unreported, available, limited) refl
