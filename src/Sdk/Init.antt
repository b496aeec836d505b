-- ===== src/Sdk/Init.antt =====
-- How a process starts: `Init` and `MustInstance` of pkg/yapr/core/sdk/client and pkg/yapr/core/sdk/server,
-- `LoadConfig` of pkg/yapr/core/config/config.go, `NewImpl` of pkg/yapr/core/store/impl/impl.go, and the
-- store that pkg/yapr/core/store/store.go registers. Reading the file, the environment, YAML and the
-- clients of etcd and Redis are parameters.
pub mod Once
use yapr.Prelude.{
  ℕ, String, string_eq, Bool, true, false, ◌||◌, List, [], ◌∷◌, Option, none, some, if◌then◌else◌,
}
use yapr.Prelude.Dict.{Dict, insert}
use yapr.Errcode.{Error, Result, success, failure}
use yapr.Go.{
  Go, ok, panic, nil_dereference, raised, store_not_registered, store_already_registered,
  not_initialized, or_panic, ◌>>=◌,
}
use yapr.Store.Config.{YaprConfig}
use yapr.Store.Leases.{Impl}
use yapr.Sdk.Server.{YaprSdk}

pub record EtcdConfig : Type 0 where
  pub endpoints : List String
  pub dial_timeout : ℕ
  pub username : String
  pub password : String

pub record RedisConfig : Type 0 where
  pub url : String

-- A section that the file lacks is nil.
pub record Config : Type 0 where
  pub etcd : Option EtcdConfig
  pub redis : Option RedisConfig
  pub yapr : Option YaprConfig

-- the builders of strategy/impl
pub data Builder : Type 0 where
  random round_robin weighted_random weighted_round_robin least_request : Builder
  least_cost hash_ring direct custom_lua : Builder

-- The variables of the packages: the store with its pod, both instances of the SDK, the builders, and
-- what is registered with gRPC and with the store.
pub record Globals : Type 0 where
  pub store : Option Impl
  pub client_sdk : Option String
  pub server_sdk : Option YaprSdk
  pub builders : Dict String Builder
  pub grpc_registered : Bool
  pub migrations_heard : Bool

abbrev pub no_globals : Globals
no_globals = record {
  store = none;
  client_sdk = none;
  server_sdk = none;
  builders = [];
  grpc_registered = false;
  migrations_heard = false;
}

abbrev pub registered_at : Globals → Impl → Option Impl → Go Globals
registered_at g st none = ok (record g { store = some st })
registered_at g st (some former) = panic store_already_registered

unfoldable pub register_store : Globals → Impl → Go Globals
register_store g st = registered_at g st g.store

unfoldable pub must_store : Globals → Go Impl
must_store g = or_panic g.store store_not_registered

unfoldable pub must_client : Globals → Go String
must_client g = or_panic g.client_sdk not_initialized

unfoldable pub must_server : Globals → Go YaprSdk
must_server g = or_panic g.server_sdk not_initialized

-- `RegisterStrategyBuilder` for each strategy of the package
unfoldable pub register_builders : Dict String Builder → Dict String Builder
register_builders b = insert "custom_lua" custom_lua (
    insert "direct" direct (
      insert "hash_ring" hash_ring (
        insert "least_cost" least_cost (
          insert "least_request" least_request (
            insert "weighted_round_robin" weighted_round_robin (
              insert "weighted_random" weighted_random
                (insert "round_robin" round_robin (insert "random" random b))))))))

-- What `Init` uses of the process: the bytes of the file, `os.ExpandEnv`, `yaml.Unmarshal`, a client of
-- etcd, `redis.ParseURL`, and `LoadConfig` of the store.
pub record Environment (E : Type 0) : Type 0 where
  pub read_file : String → Result String
  pub expand_env : String → String
  pub unmarshal : String → Result Config
  pub new_client : EtcdConfig → Result E
  pub parse_url : String → Option Error
  pub load : E → YaprConfig → E × Option Error

abbrev pub or_raise {ℓ} : {A : Type ℓ} → Result A → Go A
or_raise (success a) = ok a
or_raise (failure err) = panic (raised err)

abbrev pub raise_any {ℓ} : {A : Type ℓ} → A → Option Error → Go A
raise_any a none = ok a
raise_any a (some err) = panic (raised err)

-- The end of `Init` of the client, with the name that `uuid` makes.
abbrev pub client_started : Globals → String → Bool → Globals
client_started g pod init_grpc = record g {
  builders = register_builders g.builders;
  grpc_registered = g.grpc_registered || init_grpc;
  client_sdk = some pod;
}

-- what `Init` of the server starts with
abbrev pub new_server : YaprSdk
new_server = record {
  endpoints = [];
  endpoints_by_service = [];
  routing_table = [];
  listening = false;
  notices = [];
}

module _ {E : Type 0} (env : Environment E) where
  abbrev pub unmarshalled : Result String → Result Config
  unmarshalled (failure err) = failure err
  unmarshalled (success text) = env.unmarshal (env.expand_env text)

  -- `config.LoadConfig`
  unfoldable pub load_config_file : String → Result Config
  load_config_file path = unmarshalled (env.read_file path)

  -- The store, and the cluster after its configuration is loaded.
  unfoldable pub new_impl : Config → String → Go (Impl × E)
  new_impl cfg pod = do
    etcd_config ← or_panic cfg.etcd nil_dereference
    client ← or_raise (env.new_client etcd_config)
    redis_config ← or_panic cfg.redis nil_dereference
    checked ← raise_any client (env.parse_url redis_config.url)
    yapr_config ← or_panic cfg.yapr nil_dereference
    loaded ← raise_any (env.load checked yapr_config).0 (env.load checked yapr_config).1
    ok (record { pod = pod; service_to_lease = [] }, loaded)

  unfoldable pub with_store : Globals → String → String → Go (Globals × E)
  with_store g path pod = or_raise (load_config_file path) >>= λ cfg.
      new_impl cfg pod >>= λ made. register_store g made.0 >>= λ g'. ok (g', made.1)

  -- `Init` of the client
  abbrev pub client_or_new :
      Globals → String → Bool → String → Option String → Go (Globals × String)
  client_or_new g path init_grpc pod (some sdk) = ok (g, sdk)
  client_or_new g path init_grpc pod none =
      with_store g path pod >>= λ s. ok (client_started s.0 pod init_grpc, pod)

  unfoldable pub init_client : Globals → String → Bool → String → Go (Globals × String)
  init_client g path init_grpc pod = client_or_new g path init_grpc pod g.client_sdk

  -- `Init` of the server
  abbrev pub server_or_new : Globals → String → String → Option YaprSdk → Go (Globals × YaprSdk)
  server_or_new g path pod (some sdk) = ok (g, sdk)
  server_or_new g path pod none = with_store g path pod >>= λ s.
      ok (record s.0 { server_sdk = some new_server; migrations_heard = true }, new_server)

  unfoldable pub init_server : Globals → String → String → Go (Globals × YaprSdk)
  init_server g path pod = server_or_new g path pod g.server_sdk
