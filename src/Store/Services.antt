-- ===== src/Store/Services.antt =====
-- `GetServices` of pkg/yapr/core/store/impl/impl.go and its two listeners: the table of services that
-- the pods' entries make, and how the events of the watch and of the channel change it. `decode` is
-- `json.Unmarshal` of a list of endpoints, `decode_attribute` that of an attribute, and `attributes`
-- is what Redis returns for the hash of an endpoint.
pub mod Followed
pub mod Valid
use yapr.Prelude.{
  String, Bool, true, false, List, [], ◌∷◌, Option, none, some, or_default, ◌==◌, string_eq,
  if◌then◌else◌,
}
use yapr.Prelude.Dict.{Dict, lookup, insert, delete}
use yapr.Endpoint.{Endpoint, to_string, endpoint_from_string}
use yapr.Errcode.{Error, Result, success, failure}
use yapr.Text.{concat}
use yapr.Text.Split.{split}
use yapr.Types.{AttributeInSelector}
use yapr.Service.{
  Service, new_service, set_attribute_in_selector, register_pod, remove_pod, hang_pod,
}
use yapr.Go.{Go, ok, panic, nil_dereference}
use yapr.Store.Etcd.{Etcd}

abbrev pub Services : Type 0
Services = Dict String Service

-- The four pieces of a key: the name of the service, the pod, and whether the second is "lease".
pub record Key : Type 0 where
  pub is_lease : Bool
  pub service : String
  pub pod : String

abbrev pub key_of : List String → Option Key
key_of (root ∷ kind ∷ service ∷ pod ∷ []) =
    some (record { is_lease = kind == "lease"; service = service; pod = pod })
key_of pieces = none

unfoldable pub parse_key : String → Option Key
parse_key key = key_of (split b'/' key)

pub data Change : Type 0 where
  put : List Endpoint → Change
  remove timeout : Change

-- The listener of `GetServices`, for a service of the table.
abbrev pub changed : String → Change → Service → Service
changed pod (put endpoints) s = register_pod s pod endpoints
changed pod remove s = remove_pod s pod
changed pod timeout s = hang_pod s pod

abbrev at_service : String → (Service → Service) → Option Service → Services → Services
at_service name change none services = services
at_service name change (some s) services = insert name (change s) services

unfoldable pub on_change : Services → String → Change → String → Services
on_change services name change pod =
    at_service name (changed pod change) (lookup name services) services

-- An event of the watch: a deleted key, or a key and its value.
pub data WatchEvent : Type 0 where
  deleted : String → WatchEvent
  written : String → String → WatchEvent

module _ (decode : String → Result (List Endpoint)) where
  abbrev pub put_change : Result (List Endpoint) → Option Change
  put_change (success endpoints) = some (put endpoints)
  put_change (failure err) = none

  -- What the loop of `RegisterServiceChangeListener` makes of an event, if anything.
  abbrev pub change_of : WatchEvent → Key → Option Change
  change_of (deleted key) k = some (if k.is_lease then timeout else remove)
  change_of (written key value) k = if k.is_lease then none else put_change (decode value)

  abbrev pub key_of_event : WatchEvent → String
  key_of_event (deleted key) = key
  key_of_event (written key value) = key

  abbrev pub deliver : Services → Key → Option Change → Services
  deliver services k none = services
  deliver services k (some change) = on_change services k.service change k.pod

  abbrev pub on_keyed : Services → WatchEvent → Option Key → Services
  on_keyed services event none = services
  on_keyed services event (some k) = deliver services k (change_of event k)

  unfoldable pub on_event : Services → WatchEvent → Services
  on_event services event = on_keyed services event (parse_key (key_of_event event))

  -- the loop of `RegisterServiceChangeListener` over the events of the watch
  unfoldable pub on_events : Services → List WatchEvent → Services
  on_events services [] = services
  on_events services (event ∷ events) = on_events (on_event services event) events

module _ (decode_attribute : String → Result AttributeInSelector) where
  abbrev pub with_notice :
      Services → String → Option Endpoint → String → Result AttributeInSelector → Go Services
  with_notice services name endpoint selector (failure err) = ok services
  with_notice services name none selector (success attribute) = panic nil_dereference
  with_notice services name (some e) selector (success attribute) = ok (
      at_service name (λ s. set_attribute_in_selector s e selector attribute) (lookup name services)
        services)

  -- The listener of one service on the channel of attributes: the selector, the endpoint and the
  -- attribute of the message.
  unfoldable pub on_attribute : Services → String → String → String → String → Go Services
  on_attribute services name selector endpoint attribute =
      with_notice services name (endpoint_from_string endpoint) selector
        (decode_attribute attribute)

module _ (decode : String → Result (List Endpoint))
    (decode_attribute : String → AttributeInSelector)
    (attributes : String → Result (Dict String String)) where
  -- the loop over the fields of an endpoint's hash
  unfoldable pub set_fields : Endpoint → Dict String String → Service → Service
  set_fields e [] s = s
  set_fields e ((selector, raw) ∷ rest) s =
      set_fields e rest (set_attribute_in_selector s e selector (decode_attribute raw))

  abbrev pub with_fields : Endpoint → Result (Dict String String) → Service → Service
  with_fields e (failure err) s = s
  with_fields e (success fields) s = set_fields e fields s

  -- the loop over the endpoints of a pod
  unfoldable pub set_attributes : List Endpoint → Service → Service
  set_attributes [] s = s
  set_attributes (e ∷ es) s =
      set_attributes es (with_fields e (attributes (concat "_attr_" (to_string e))) s)

  abbrev pub load_pod : String → Result (List Endpoint) → Service → Service
  load_pod pod (failure err) s = s
  load_pod pod (success endpoints) s = set_attributes endpoints (register_pod s pod endpoints)

  abbrev pub load_keyed : Services → String → Option Key → Services
  load_keyed services value none = services
  load_keyed services value (some k) =
      insert k.service
        (load_pod k.pod (decode value)
          (or_default (lookup k.service services) (new_service k.service)))
        services

  -- the loop over the keys
  unfoldable pub load_all : Dict String String → Services → Services
  load_all [] services = services
  load_all ((key, value) ∷ rest) services =
      load_all rest (load_keyed services value (parse_key key))

  abbrev pub loaded : Result (Dict String String) → Result Services
  loaded (failure err) = failure err
  loaded (success kvs) = success (load_all kvs [])

  unfoldable pub get_services : {E : Type 0} → Etcd E → E → Result Services
  get_services etcd s = loaded (etcd.get_prefix s "svc/data/")
