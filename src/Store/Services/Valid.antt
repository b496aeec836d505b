-- ===== src/Store/Services/Valid.antt =====
-- Every service of the table stays valid, and goes through the calls that the events stand for.
use mathlib.Core.Path.{subst}
use yapr.Prelude.{
  String, List, [], ◌∷◌, Option, none, some, or_default, ◌≡◌, refl, arith, ◌==◌, string_eq, All,
  Bool-cases, Option-cases, inl, inr,
}
use yapr.Prelude.Dict.{Dict, lookup, insert}
use yapr.Endpoint.{Endpoint, to_string}
use yapr.Errcode.{Result, success, failure}
use yapr.Text.{concat}
use yapr.Types.{AttributeInSelector}
use yapr.Service.{Service, new_service}
use yapr.Service.Invariant.{IsValid, OwnEndpoints}
use yapr.Service.Runs.{
  register, remove as remove_call, hang, set_attribute, step, step-IsValid, new_service-IsValid,
}
use yapr.Store.Etcd.{Etcd}
use yapr.Store.Services.Followed.{after_calls, calls_of, on_events-calls_of}
use yapr.Store.Services.{
  Services, Key, parse_key, Change, put, remove, timeout, changed, on_change, WatchEvent, deleted,
  written, put_change, key_of_event, deliver, on_keyed, on_event, on_events, set_fields,
  with_fields, set_attributes, load_pod, load_keyed, load_all, get_services,
}

some_injective : {A : Type 0} {a b : A} → some a ≡ some b → a ≡ b
some_injective h = cc

success_injective : {A : Type 0} {a b : A} → success a ≡ success b → a ≡ b
success_injective h = cc

abbrev pub ValidEntry : String × Service → Type 0
ValidEntry (name, s) = IsValid s

abbrev pub AllValid : Services → Type 0
AllValid = All ValidEntry

insert-AllValid :
    (services : Services) (name : String) (s : Service)
    → IsValid s
    → AllValid services
    → AllValid (insert name s services)
unfolding insert
insert-AllValid [] name s v all = (v, tt)
insert-AllValid ((other, t) ∷ services) name s v all = elim (Bool-cases (other == name)) [
  | inl same ↦ rw same (v, all.1)
  | inr differ ↦ rw differ (all.0, insert-AllValid services name s v all.1)
]

lookup-AllValid :
    (services : Services) (name : String) (s : Service)
    → lookup name services ≡ some s
    → AllValid services
    → IsValid s
unfolding lookup
lookup-AllValid [] name s found all = absurd (ground (arith, found))
lookup-AllValid ((other, t) ∷ services) name s found all = elim (Bool-cases (other == name)) [
  | inl same ↦ let is : t ≡ s = some_injective (rw same at found) in subst IsValid is all.0
  | inr differ ↦ lookup-AllValid services name s (rw differ at found) all.1
]

-- The pods of the entries register endpoints of their own.
abbrev pub OwnKeyed : Option Key → Result (List Endpoint) → Type 0
OwnKeyed none endpoints = Unit
OwnKeyed (some k) (failure err) = Unit
OwnKeyed (some k) (success endpoints) = OwnEndpoints k.pod endpoints

module _ (decode : String → Result (List Endpoint)) where
  abbrev pub OwnEntry : String × String → Type 0
  OwnEntry (key, value) = OwnKeyed (parse_key key) (decode value)

  abbrev pub OwnEvent : WatchEvent → Type 0
  OwnEvent (deleted key) = Unit
  OwnEvent (written key value) = OwnEntry (key, value)

  abbrev OwnChange : String → Change → Type 0
  OwnChange pod (put es) = OwnEndpoints pod es
  OwnChange pod remove = Unit
  OwnChange pod timeout = Unit

  changed-IsValid :
      (pod : String) (change : Change) (s : Service)
      → OwnChange pod change
      → IsValid s
      → IsValid (changed pod change s)
  unfolding step
  changed-IsValid pod (put es) s own v = step-IsValid s (register pod es) own v
  changed-IsValid pod remove s own v = step-IsValid s (remove_call pod) tt v
  changed-IsValid pod timeout s own v = step-IsValid s (hang pod) tt v

  on_change-AllValid :
      (services : Services) (name pod : String) (change : Change)
      → OwnChange pod change
      → AllValid services
      → AllValid (on_change services name change pod)
  unfolding on_change
  on_change-AllValid services name pod change own all = elim (Option-cases (lookup name services)) [
    | inl nothing ↦ rw nothing all
    | inr (s, found) ↦ rw found (
        insert-AllValid services name (changed pod change s)
          (changed-IsValid pod change s own (lookup-AllValid services name s found all)) all)
  ]

  on_event-AllValid :
      (services : Services) (event : WatchEvent)
      → OwnEvent event
      → AllValid services
      → AllValid (on_event decode services event)
  unfolding on_event
  on_event-AllValid services event own all =
      go event (parse_key (key_of_event decode event)) refl own
    where
      go :
          (event : WatchEvent) (o : Option Key)
          → parse_key (key_of_event decode event) ≡ o
          → OwnEvent event
          → AllValid (on_keyed decode services event o)
      go event none is own = all
      go (deleted key) (some k) is own = elim (Bool-cases k.is_lease) [
        | inl lease ↦ rw lease (on_change-AllValid services k.service k.pod timeout tt all)
        | inr other ↦ rw other (on_change-AllValid services k.service k.pod remove tt all)
      ]
      go (written key value) (some k) is own = elim (Bool-cases k.is_lease) [
        | inl lease ↦ rw lease all
        | inr other ↦ rw other (put_one (decode value) (rw is at own))
      ]
        where
          put_one :
              (r : Result (List Endpoint))
              → OwnKeyed (some k) r
              → AllValid (deliver decode services k (put_change decode r))
          put_one (failure err) own = all
          put_one (success es) own = on_change-AllValid services k.service k.pod (put es) own all

  on_events-AllValid :
      (services : Services) (events : List WatchEvent)
      → All OwnEvent events
      → AllValid services
      → AllValid (on_events decode services events)
  unfolding on_events
  on_events-AllValid services [] own all = all
  on_events-AllValid services (event ∷ events) own all =
      on_events-AllValid (on_event decode services event) events own.1
        (on_event-AllValid services event own.0 all)

  module _ (decode_attribute : String → AttributeInSelector)
      (attributes : String → Result (Dict String String)) where
    set_fields-IsValid :
        (e : Endpoint) (fields : Dict String String) (s : Service)
        → IsValid s
        → IsValid (set_fields decode decode_attribute attributes e fields s)
    unfolding set_fields step
    set_fields-IsValid e [] s v = v
    set_fields-IsValid e ((selector, raw) ∷ rest) s v =
        set_fields-IsValid e rest _
          (step-IsValid s (set_attribute e selector (decode_attribute raw)) tt v)

    set_attributes-IsValid :
        (es : List Endpoint) (s : Service)
        → IsValid s
        → IsValid (set_attributes decode decode_attribute attributes es s)
    unfolding set_attributes
    set_attributes-IsValid [] s v = v
    set_attributes-IsValid (e ∷ es) s v =
        set_attributes-IsValid es _ (one (attributes (concat "_attr_" (to_string e))))
      where
        one :
            (r : Result (Dict String String))
            → IsValid (with_fields decode decode_attribute attributes e r s)
        one (failure err) = v
        one (success fields) = set_fields-IsValid e fields s v

    load_pod-IsValid :
        (k : Key) (r : Result (List Endpoint)) (s : Service)
        → OwnKeyed (some k) r
        → IsValid s
        → IsValid (load_pod decode decode_attribute attributes k.pod r s)
    unfolding step
    load_pod-IsValid k (failure err) s own v = v
    load_pod-IsValid k (success es) s own v =
        set_attributes-IsValid es _ (step-IsValid s (register k.pod es) own v)

    former-IsValid :
        (services : Services) (name : String)
        → AllValid services
        → IsValid (or_default (lookup name services) (new_service name))
    former-IsValid services name all = elim (Option-cases (lookup name services)) [
      | inl nothing ↦ rw nothing (new_service-IsValid name)
      | inr (s, found) ↦ rw found (lookup-AllValid services name s found all)
    ]

    load_all-AllValid :
        (kvs : Dict String String) (services : Services)
        → All OwnEntry kvs
        → AllValid services
        → AllValid (load_all decode decode_attribute attributes kvs services)
    unfolding load_all
    load_all-AllValid [] services own all = all
    load_all-AllValid ((key, value) ∷ rest) services own all =
        load_all-AllValid rest _ own.1 (one (parse_key key) own.0)
      where
        one :
            (o : Option Key)
            → OwnKeyed o (decode value)
            → AllValid (load_keyed decode decode_attribute attributes services value o)
        one none own = all
        one (some k) own =
            insert-AllValid services k.service _
              (load_pod-IsValid k (decode value) _ own (former-IsValid services k.service all)) all

    -- Let the pods register endpoints of their own, in the keys that etcd returns and in the events of
    -- the watch, and let `GetServices` return. Then every service of its table is valid after the
    -- events, and is what the calls that the events stand for make of the one that it returned, one call
    -- after the other: `RegisterPod` for a written list of endpoints, `RemovePod` for a list that is
    -- deleted, and `HangPod` for a lease that is deleted. No service is added or lost.
    pub get_services-AllValid :
        {E : Type 0} (etcd : Etcd E) (s : E) (kvs : Dict String String) (services : Services)
        (events : List WatchEvent)
        → etcd.get_prefix s "svc/data/" ≡ success kvs
        → All OwnEntry kvs
        → All OwnEvent events
        → get_services decode decode_attribute attributes etcd s ≡ success services
        → AllValid (on_events decode services events)
          × ((name : String)
              → lookup name (on_events decode services events)
                ≡ after_calls (calls_of decode name events) (lookup name services))
    unfolding get_services
    get_services-AllValid etcd s kvs services events keys own own_events made =
        let same : load_all decode decode_attribute attributes kvs [] ≡ services =
          success_injective (rw keys at made) in
        (
          on_events-AllValid services events own_events
              (subst AllValid same (load_all-AllValid kvs [] own tt)),
          λ name. on_events-calls_of decode name services events,
        )
