-- ===== src/Store/Etcd.antt =====
-- What the store uses of the etcd client, for a type of the cluster's states: third-party code, as an
-- interface. A call returns its error, if any, beside what it reads or writes.
use yapr.Prelude.{ℕ, String, Option, none, ◌≡◌, ◌==◌, string_eq, if◌then◌else◌, some}
use yapr.Prelude.Dict.{Dict}
use yapr.Errcode.{Error, Result, success}

pub record Etcd (E : Type 0) : Type 0 where
  pub get : E → String → Result (Option String)
  -- `WithPrefix`: the keys that start with the text, and their values
  pub get_prefix : E → String → Result (Dict String String)
  pub put : E → String → String → E × Option Error
  pub put_leased : E → String → String → ℕ → E × Option Error
  pub delete : E → String → E × Option Error
  pub grant : E → ℕ → E × Result ℕ
  pub keep_alive : E → ℕ → E × Option Error
  pub revoke : E → ℕ → E × Option Error

-- Reading and writing a key do not fail, and a key holds what was put there last, until it is deleted:
-- what etcd documents of a cluster that is up, as long as no lease ends.
pub record IsUp {E : Type 0} (etcd : Etcd E) : Type 0 where
  pub stored : E → String → Option String
  pub get-stored : (s : E) (k : String) → etcd.get s k ≡ success (stored s k)
  pub put_ok : (s : E) (k v : String) → (etcd.put s k v).1 ≡ none
  pub stored-put :
      (s : E) (k v j : String)
      → stored (etcd.put s k v).0 j ≡ (if k == j then some v else stored s j)
  pub stored-put_leased :
      (s : E) (k v j : String) (lease : ℕ)
      → stored (etcd.put_leased s k v lease).0 j ≡ (if k == j then some v else stored s j)
  pub stored-delete :
      (s : E) (k j : String) → stored (etcd.delete s k).0 j ≡ (if k == j then none else stored s j)
