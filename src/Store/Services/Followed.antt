-- ===== src/Store/Services/Followed.antt =====
-- What the events of the watch do to one service of the table, as calls of its methods.
use yapr.Prelude.{
  String, string_eq, false, List, [], ◌∷◌, ◌++◌, Option, none, some, ◌==◌, ==_iff, ◌&&◌, not,
  if◌then◌else◌, ◌≡◌, refl, ◌∙◌, arith, inl, inr, Bool-cases, Option-cases,
}
use yapr.Prelude.Dict.{lookup, lookup-insert}
use yapr.Endpoint.{Endpoint}
use yapr.Errcode.{Result, success, failure}
use yapr.Service.{Service}
use yapr.Service.Runs.{Call, register, remove as remove_call, hang, step, run}
use yapr.Store.Services.{
  Services, Key, parse_key, Change, put, remove, timeout, changed, on_change, WatchEvent, deleted,
  written, put_change, deliver, on_keyed, on_event, on_events,
}

abbrev pub after_calls : List Call → Option Service → Option Service
after_calls calls none = none
after_calls calls (some s) = some (run s calls)

-- The calls on a service that a deleted key stands for: a lease that is lost hangs the pod.
abbrev pub deleted_calls : String → Option Key → List Call
deleted_calls name none = []
deleted_calls name (some k) =
    if k.service == name then (if k.is_lease then hang k.pod else remove_call k.pod) ∷ [] else []

-- Those of a key that is written with a list of endpoints, which a lease does not have.
abbrev pub written_calls : String → Option Key → Result (List Endpoint) → List Call
written_calls name none endpoints = []
written_calls name (some k) (failure err) = []
written_calls name (some k) (success endpoints) =
    if k.service == name && not k.is_lease then register k.pod endpoints ∷ [] else []

module _ (decode : String → Result (List Endpoint)) (name : String) where
  abbrev pub event_calls : WatchEvent → List Call
  event_calls (deleted key) = deleted_calls name (parse_key key)
  event_calls (written key value) = written_calls name (parse_key key) (decode value)

  unfoldable pub calls_of : List WatchEvent → List Call
  calls_of [] = []
  calls_of (event ∷ events) = event_calls event ++ calls_of events

  no_calls : (o : Option Service) → o ≡ after_calls [] o
  unfolding run
  no_calls none = refl
  no_calls (some s) = refl

  after_calls-append :
      (cs ds : List Call) (o : Option Service)
      → after_calls ds (after_calls cs o) ≡ after_calls (cs ++ ds) o
  unfolding run
  after_calls-append cs ds none = refl
  after_calls-append [] ds (some s) = refl
  after_calls-append (c ∷ cs) ds (some s) = after_calls-append cs ds (some (step s c))

  -- A change of a service is a call on that service alone.
  on_change-call :
      (services : Services) (k : Key) (change : Change) (call : Call)
      → ((s : Service) → changed k.pod change s ≡ step s call)
      → lookup name (on_change services k.service change k.pod)
        ≡ after_calls (if k.service == name then call ∷ [] else []) (lookup name services)
  unfolding on_change run
  on_change-call services k change call is = elim (Bool-cases (k.service == name)) [
    | inl same ↦ here (ground (arith, same, ==_iff k.service name))
    | inr other ↦ rw other (elsewhere other ∙ no_calls (lookup name services))
  ]
    where
      here :
          k.service ≡ name
          → lookup name (on_change services k.service change k.pod)
            ≡ after_calls (if k.service == name then call ∷ [] else []) (lookup name services)
      here same = elim (Option-cases (lookup k.service services)) [
        | inl nothing ↦ ground (arith, same, nothing, ==_iff k.service name)
        | inr (s, found) ↦ ground (
          arith,
          same,
          found,
          is s,
          ==_iff k.service name,
          lookup-insert k.service name (changed k.pod change s) services,
        )
      ]

      elsewhere :
          (k.service == name) ≡ false
          → lookup name (on_change services k.service change k.pod) ≡ lookup name services
      elsewhere other = elim (Option-cases (lookup k.service services)) [
        | inl nothing ↦ rw nothing refl
        | inr (s, found) ↦
            rw found
              (lookup-insert k.service name (changed k.pod change s) services ∙ rw other refl)
      ]

  on_deleted-calls :
      (services : Services) (key : String) (o : Option Key)
      → lookup name (on_keyed decode services (deleted key) o)
        ≡ after_calls (deleted_calls name o) (lookup name services)
  unfolding step
  on_deleted-calls services key none = no_calls (lookup name services)
  on_deleted-calls services key (some k) = elim (Bool-cases k.is_lease) [
    | inl lease ↦ rw lease (on_change-call services k timeout (hang k.pod) (λ s. refl))
    | inr other ↦ rw other (on_change-call services k remove (remove_call k.pod) (λ s. refl))
  ]

  on_written-calls :
      (services : Services) (key value : String) (o : Option Key)
      → lookup name (on_keyed decode services (written key value) o)
        ≡ after_calls (written_calls name o (decode value)) (lookup name services)
  unfolding step
  on_written-calls services key value none = no_calls (lookup name services)
  on_written-calls services key value (some k) = put_calls (decode value)
    where
      put_calls :
          (r : Result (List Endpoint))
          → lookup name
              (deliver decode services k (if k.is_lease then none else put_change decode r))
            ≡ after_calls (written_calls name (some k) r) (lookup name services)
      put_calls (failure err) = elim (Bool-cases k.is_lease) [
        | inl lease ↦ rw lease (no_calls (lookup name services))
        | inr other ↦ rw other (no_calls (lookup name services))
      ]
      put_calls (success es) = elim (Bool-cases k.is_lease) [
        | inl lease ↦ elim (Bool-cases (k.service == name)) [
          | inl same ↦ rw (lease, same) (no_calls (lookup name services))
          | inr differ ↦ rw (lease, differ) (no_calls (lookup name services))
        ]
        | inr other ↦ elim (Bool-cases (k.service == name)) [
          | inl same ↦
              rw (other, same)
                (on_change-call services k (put es) (register k.pod es) (λ s. refl) ∙ rw same refl)
          | inr differ ↦
              rw (other, differ)
                (on_change-call services k (put es) (register k.pod es) (λ s. refl)
                  ∙ rw differ refl)
        ]
      ]

  on_event-calls :
      (services : Services) (event : WatchEvent)
      → lookup name (on_event decode services event)
        ≡ after_calls (event_calls event) (lookup name services)
  unfolding on_event
  on_event-calls services (deleted key) = on_deleted-calls services key (parse_key key)
  on_event-calls services (written key value) = on_written-calls services key value (parse_key key)

  pub on_events-calls_of :
      (services : Services) (events : List WatchEvent)
      → lookup name (on_events decode services events)
        ≡ after_calls (calls_of events) (lookup name services)
  unfolding on_events calls_of
  on_events-calls_of services [] = no_calls (lookup name services)
  on_events-calls_of services (event ∷ events) =
      on_events-calls_of (on_event decode services event) events
      ∙ rw on_event-calls (after_calls-append (event_calls event) (calls_of events) _)
