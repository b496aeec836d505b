-- ===== src/Store/Leases/Registered.antt =====
-- `UnregisterService` undoes `RegisterService` of pkg/yapr/core/store/impl/impl.go.
use yapr.Prelude.{
  ℕ, String, false, List, Option, none, some, ◌≡◌, refl, ◌∙◌, ap, arith, string_eq, ==_refl,
  is_some, [], ◌∷◌,
}
use yapr.Prelude.Dict.{Dict, lookup, insert, delete, has, lookup-insert}
use yapr.Endpoint.{Endpoint}
use yapr.Errcode.{Error, Result, success, failure}
use yapr.Store.Etcd.{Etcd, IsUp}
use yapr.Store.Leases.{
  Impl, lease_key, data_key, leased, with_lease_key, with_keep_alive, with_grant, register_service,
  released, unregister_service,
}

delete_missing :
    {V : Type 0} → (k : String) (m : Dict String V) → lookup k m ≡ none → delete k m ≡ m
unfolding lookup delete
delete_missing k [] h = refl
delete_missing k ((j, w) ∷ m) h = ground (arith, delete_missing k m)

delete-insert :
    {V : Type 0}
    → (k : String) (v : V) (m : Dict String V) → lookup k m ≡ none
    → delete k (insert k v m) ≡ m
unfolding lookup delete insert
delete-insert k v [] h = ground (arith, ==_refl k)
delete-insert k v ((j, w) ∷ m) h = ground (arith, delete-insert k v m)

module _ {E : Type 0} (etcd : Etcd E) (up : IsUp etcd)
    (encode : List Endpoint → Result String) where
  -- What a registration without an error has done.
  abbrev Done : Impl → String → String → Impl × E × Option Error → Type 0
  Done s service json r =
      (lease : ℕ) × (c : E) × (r
        ≡ (leased etcd encode s service lease, (etcd.put c (data_key service s.pod) json).0, none))

  with_lease_key-Done :
      (s : Impl) (service json : String) (lease : ℕ) (p : E × Option Error)
      → (with_lease_key etcd encode s service json lease p).2 ≡ none
      → Done s service json (with_lease_key etcd encode s service json lease p)
  with_lease_key-Done s service json lease (c, some err) h = cc
  with_lease_key-Done s service json lease (c, none) h =
      (lease, c, rw (up.put_ok c (data_key service s.pod) json) refl)

  with_keep_alive-Done :
      (s : Impl) (service json : String) (lease : ℕ) (p : E × Option Error)
      → (with_keep_alive etcd encode s service json lease p).2 ≡ none
      → Done s service json (with_keep_alive etcd encode s service json lease p)
  with_keep_alive-Done s service json lease (c, some err) h = cc
  with_keep_alive-Done s service json lease (c, none) h =
      with_lease_key-Done s service json lease _ h

  with_grant-Done :
      (s : Impl) (service json : String) (p : E × Result ℕ)
      → (with_grant etcd encode s service json p).2 ≡ none
      → Done s service json (with_grant etcd encode s service json p)
  with_grant-Done s service json (c, failure err) h = cc
  with_grant-Done s service json (c, success lease) h =
      with_keep_alive-Done s service json lease _ h

  register_service-Done :
      (s : Impl) (c : E) (service json : String) (endpoints : List Endpoint)
      → has service s.service_to_lease ≡ false
      → encode endpoints ≡ success json
      → (register_service etcd encode s c service endpoints).2 ≡ none
      → Done s service json (register_service etcd encode s c service endpoints)
  unfolding register_service
  register_service-Done s c service json endpoints unheld encoded h =
      let h' : (with_grant etcd encode s service json (etcd.grant c 5)).2 ≡ none =
        rw (unheld, encoded) at h in
      rw (unheld, encoded) (with_grant-Done s service json (etcd.grant c 5) h')

  -- the keys of a service that is released
  released_lem :
      (s : Impl) (c : E) (service : String) (lease : ℕ)
      → (up.stored (released etcd encode s c service (some lease)).1 (lease_key service s.pod)
          ≡ none)
        × (up.stored (released etcd encode s c service (some lease)).1 (data_key service s.pod)
            ≡ none)
  released_lem s c service lease =
      let c₁ = (etcd.revoke c lease).0 in
      let lease_name = lease_key service s.pod in
      let c₂ = (etcd.delete c₁ lease_name).0 in
      let data_name = data_key service s.pod in
      let law = up.stored-delete c₂ data_name lease_name in
      let first = up.stored-delete c₁ lease_name lease_name in
      let second = up.stored-delete c₂ data_name data_name in
      (ground (arith, law, first, ==_refl lease_name), ground (arith, second, ==_refl data_name))

  -- On a cluster that is up: a registration of a service that is not held yet, if it returns no error,
  -- leaves the encoded endpoints at the data key; unregistering the service then gives back the store's
  -- leases as they were, and both keys of the service are gone.
  pub unregister_service-register_service :
      (s : Impl) (c : E) (service json : String) (endpoints : List Endpoint)
      → has service s.service_to_lease ≡ false
      → encode endpoints ≡ success json
      → (register_service etcd encode s c service endpoints).2 ≡ none
      → let (s₁, c₁, failed) = register_service etcd encode s c service endpoints in
        let (s₂, c₂) = unregister_service etcd encode s₁ c₁ service in
        (up.stored c₁ (data_key service s.pod) ≡ some json)
        × (s₂ ≡ s)
        × (up.stored c₂ (lease_key service s.pod) ≡ none)
        × (up.stored c₂ (data_key service s.pod) ≡ none)
  unfolding unregister_service
  unregister_service-register_service s c service json endpoints unheld encoded h =
      let (lease, c₀, is) = register_service-Done s c service json endpoints unheld encoded h in
      let data_name = data_key service s.pod in
      let c₁ = (etcd.put c₀ data_name json).0 in
      let s₁ = leased etcd encode s service lease in
      let gone = released_lem s₁ c₁ service lease in
      let unset : lookup service s.service_to_lease ≡ none = is_some_none _ unheld in
      let held : lookup service s₁.service_to_lease ≡ some lease =
        lookup-insert service service lease s.service_to_lease ∙ ground (arith, ==_refl service) in
      let undone : delete service s₁.service_to_lease ≡ s.service_to_lease =
        delete-insert service lease s.service_to_lease unset in
      rw is (
        up.stored-put c₀ data_name json data_name ∙ ground (arith, ==_refl data_name),
        rw held (ap (λ m. record s { service_to_lease = m }) undone),
        rw held gone.0,
        rw held gone.1,
      )
    where
      is_some_none : {A : Type 0} → (o : Option A) → is_some o ≡ false → o ≡ none
      is_some_none none e = refl
      is_some_none (some a) e = cc
