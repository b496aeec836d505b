-- ===== src/Store/Leases.antt =====
-- `RegisterService` and `UnregisterService` of pkg/yapr/core/store/impl/impl.go. `encode` is
-- `json.Marshal` of a list of endpoints; the channel that tells of a lost lease is left out.
pub mod Registered
use yapr.Prelude.{
  ℕ, String, Bool, true, false, List, [], ◌∷◌, Option, none, some, string_eq, if◌then◌else◌,
}
use yapr.Prelude.Dict.{Dict, lookup, insert, delete, has}
use yapr.Endpoint.{Endpoint}
use yapr.Errcode.{Error, coded, Result, success, failure, err_service_already_registered}
use yapr.Text.{concat}
use yapr.Store.Etcd.{Etcd}

-- The store of a pod.
pub record Impl : Type 0 where
  pub pod : String
  pub service_to_lease : Dict String ℕ

abbrev pub lease_key : String → String → String
lease_key service pod = concat "svc/lease/" (concat service (concat "/" pod))

abbrev pub data_key : String → String → String
data_key service pod = concat "svc/data/" (concat service (concat "/" pod))

module _ {E : Type 0} (etcd : Etcd E) (encode : List Endpoint → Result String) where
  abbrev pub leased : Impl → String → ℕ → Impl
  leased s service lease = record s { service_to_lease = insert service lease s.service_to_lease }

  -- Behind the `Put` of the lease's key: the lease is revoked if that failed.
  abbrev pub with_lease_key :
      Impl → String → String → ℕ → E × Option Error → Impl × E × Option Error
  with_lease_key s service json lease (c, some err) = (
    record s { service_to_lease = delete service s.service_to_lease },
    (etcd.revoke c lease).0,
    some err,
  )
  with_lease_key s service json lease (c, none) =
      let (c', failed) = etcd.put c (data_key service s.pod) json in
      (leased s service lease, c', failed)

  abbrev pub with_keep_alive :
      Impl → String → String → ℕ → E × Option Error → Impl × E × Option Error
  with_keep_alive s service json lease (c, some err) = (s, c, some err)
  with_keep_alive s service json lease (c, none) =
      with_lease_key s service json lease (etcd.put_leased c (lease_key service s.pod) "1" lease)

  abbrev pub with_grant : Impl → String → String → E × Result ℕ → Impl × E × Option Error
  with_grant s service json (c, failure err) = (s, c, some err)
  with_grant s service json (c, success lease) =
      with_keep_alive s service json lease (etcd.keep_alive c lease)

  abbrev pub with_json : Impl → E → String → Result String → Impl × E × Option Error
  with_json s c service (failure err) = (s, c, some err)
  with_json s c service (success json) = with_grant s service json (etcd.grant c 5)

  unfoldable pub register_service : Impl → E → String → List Endpoint → Impl × E × Option Error
  register_service s c service endpoints =
      let registered = with_json s c service (encode endpoints) in
      if has service s.service_to_lease
      then (s, c, some (coded err_service_already_registered))
      else registered

  -- `UnregisterService` only logs the errors of its calls.
  abbrev pub released : Impl → E → String → Option ℕ → Impl × E
  released s c service none = (s, c)
  released s c service (some lease) =
      let c₁ = (etcd.revoke c lease).0 in
      let c₂ = (etcd.delete c₁ (lease_key service s.pod)).0 in
      (
        record s { service_to_lease = delete service s.service_to_lease },
        (etcd.delete c₂ (data_key service s.pod)).0,
      )

  unfoldable pub unregister_service : Impl → E → String → Impl × E
  unregister_service s c service = released s c service (lookup service s.service_to_lease)
