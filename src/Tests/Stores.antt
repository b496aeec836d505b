-- ===== src/Tests/Stores.antt =====
-- A cluster that keeps its keys in a list, and what the store does with it.
use yapr.Prelude.{
  length, ◌+◌, String, List, [], ◌∷◌, none, some, ◌≡◌, refl, arith, string_eq, if◌then◌else◌,
  ==_iff,
}
use yapr.Prelude.Dict.{Dict, lookup, insert, delete, lookup-insert, lookup-delete}
use yapr.Endpoint.{endpoint_eq, Endpoint}
use yapr.Errcode.{Result, success, failure, other}
use yapr.Text.Decimal.{pos, negsuc}
use yapr.Types.{Router, Selector, AttributeInSelector}
use yapr.Store.Etcd.{Etcd, IsUp}
use yapr.Store.Config.{YaprConfig, load_config}
use yapr.Store.Config.Loaded.{is_held, at_key, load_config_lem}
use yapr.Store.Leases.{Impl, lease_key, data_key, register_service, unregister_service}
use yapr.Store.Leases.Registered.{unregister_service-register_service}
use yapr.Store.Routes.{Routes, set_custom_route, old_text}
use yapr.Store.Routes.Swap.{holder, gives_way, stored, parsed, set_custom_route_swap}
use yapr.Store.Attributes.{Hashes, no_attribute}
use yapr.Store.Attributes.Reported.{
  SdkReport, weight, rps, report_all, stored_attribute, last_value, weight_of, rps_of,
  report_all_lem,
}
use yapr.Store.Services.{
  on_events, WatchEvent, deleted, written, Services, load_all, get_services, parse_key,
}
use yapr.Service.Invariant.{OwnEndpoints}
use yapr.Text.Split.{split}
use yapr.Store.Services.Valid.{AllValid, get_services-AllValid}
use yapr.Store.Services.Followed.{after_calls, calls_of}
use yapr.Tests.{alpha, beta, settings}

abbrev pub memory : Etcd (Dict String String)
memory = record {
  get = λ s k. success (lookup k s);
  get_prefix = λ s prefix. success s;
  put = λ s k v. (insert k v s, none);
  put_leased = λ s k v lease. (insert k v s, none);
  delete = λ s k. (delete k s, none);
  grant = λ s ttl. (s, success 7);
  keep_alive = λ s lease. (s, none);
  revoke = λ s lease. (s, none);
}

abbrev memory_up : IsUp memory
memory_up = record {
  stored = λ s k. lookup k s;
  get-stored = λ s k. refl;
  put_ok = λ s k v. refl;
  stored-put = λ s k v j. lookup-insert k j v s;
  stored-put_leased = λ s k v j lease. lookup-insert k j v s;
  stored-delete = λ s k j. lookup-delete k j s;
}

abbrev config : YaprConfig
config = record { version = "2"; routers = []; selectors = settings ∷ [] }

abbrev selector_json : Selector → Result String
selector_json s = success "{}"

abbrev router_json : Router → Result String
router_json r = failure (other "no routers")

abbrev old_version : Dict String String
old_version = ("version", "1") ∷ []

load_config_lem_example :
    ((load_config memory selector_json router_json config old_version).1 ≡ none)
    × (lookup "slt/echo-all" (load_config memory selector_json router_json config old_version).0 ≡ (
        if is_held memory memory_up selector_json router_json config (lookup "version" old_version)
        then lookup "slt/echo-all" old_version
        else at_key memory memory_up selector_json router_json config "slt/echo-all"
            (lookup "slt/echo-all" old_version)))
load_config_lem_example =
    load_config_lem memory memory_up selector_json router_json config old_version "slt/echo-all"

abbrev impl : Impl
impl = record { pod = "pod-a"; service_to_lease = [] }

abbrev endpoints_json : List Endpoint → Result String
endpoints_json es = success "[]"

unregister_service-register_service_example :
    let (s₁, c₁, failed) =
      register_service memory endpoints_json impl old_version "echo" (alpha ∷ []) in
    let (s₂, c₂) = unregister_service memory endpoints_json s₁ c₁ "echo" in
    (lookup (data_key "echo" "pod-a") c₁ ≡ some "[]")
    × (s₂ ≡ impl)
    × (lookup (lease_key "echo" "pod-a") c₂ ≡ none)
    × (lookup (data_key "echo" "pod-a") c₂ ≡ none)
unfolding register_service lookup
unregister_service-register_service_example =
    unregister_service-register_service memory memory_up endpoints_json impl old_version "echo" "[]"
      (alpha ∷ []) refl refl refl

abbrev pub routes : Routes
routes = record {
  endpoints = ("room", ("7", "10.0.0.1#pod-a#8080") ∷ []) ∷ [];
  deadlines = ("room", ("7", negsuc 0) ∷ []) ∷ [];
}

set_custom_route_swap_example : set_custom_route 1000 routes "room" "7" beta none (pos 0) ≡ (
    if gives_way (holder 1000 routes "room" "7") (old_text none)
    then (stored 1000 routes "room" "7" beta (pos 0), success none)
    else (routes, success (parsed (holder 1000 routes "room" "7"))))
unfolding lookup
set_custom_route_swap_example =
    set_custom_route_swap 1000 routes "room" "7" beta none (pos 0) (omega arith) refl

abbrev echo : String
echo = "echo-all"

abbrev hashes : Hashes
hashes = record { fields = []; published = [] }

abbrev some_reports : List SdkReport
some_reports = weight alpha echo 3 ∷ rps beta echo 9 ∷ weight alpha echo 4 ∷ []

report_all_lem_example :
    ((stored_attribute (report_all hashes some_reports) alpha echo).weight
      ≡ last_value (weight_of alpha echo) some_reports (stored_attribute hashes alpha echo).weight)
    × ((stored_attribute (report_all hashes some_reports) alpha echo).rps
        ≡ last_value (rps_of alpha echo) some_reports (stored_attribute hashes alpha echo).rps)
    × (length (report_all hashes some_reports).published
        ≡ length hashes.published + length some_reports)
report_all_lem_example = report_all_lem hashes some_reports alpha echo

abbrev pods : Dict String String
pods = ("svc/data/echo/pod-a", "[]") ∷ []

abbrev read_endpoints : String → Result (List Endpoint)
read_endpoints json = success (alpha ∷ [])

abbrev read_attribute : String → AttributeInSelector
read_attribute json = no_attribute

abbrev no_fields : String → Result (Dict String String)
no_fields key = success []

own_alpha : OwnEndpoints "pod-a" (alpha ∷ [])
own_alpha e h = ground (arith, ==_iff alpha e)

abbrev table : Services
table = load_all read_endpoints read_attribute no_fields pods []

abbrev events : List WatchEvent
events = deleted "svc/lease/echo/pod-a" ∷ written "svc/data/echo/pod-a" "[]" ∷ []

get_services-AllValid_example :
    AllValid (on_events read_endpoints table events)
    × ((name : String)
        → lookup name (on_events read_endpoints table events)
          ≡ after_calls (calls_of read_endpoints name events) (lookup name table))
unfolding get_services parse_key split
get_services-AllValid_example =
    get_services-AllValid read_endpoints read_attribute no_fields memory pods pods table events refl
      (own_alpha, tt) (tt, (own_alpha, tt)) refl
