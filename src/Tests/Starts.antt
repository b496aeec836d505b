-- ===== src/Tests/Starts.antt =====
-- A process with a configuration of no routers.
use yapr.Prelude.{string_eq, true, [], none, some, ◌≢◌, refl}
use yapr.Errcode.{success}
use yapr.Go.{ok}
use yapr.Sdk.Init.{
  Globals, no_globals, Config, Environment, client_started, register_store, load_config_file,
  new_impl, with_store, init_client, init_server, new_server,
}
use yapr.Sdk.Init.Once.{init_server-init_client}

abbrev here : Config
here = record {
  etcd = some (record { endpoints = []; dial_timeout = 5; username = ""; password = "" });
  redis = some (record { url = "redis://localhost" });
  yapr = some (record { version = "1"; routers = []; selectors = [] });
}

-- The cluster has nothing to remember.
abbrev calm : Environment (Unit {0})
calm = record {
  read_file = λ path. success "version: 1";
  expand_env = λ text. text;
  unmarshal = λ text. success here;
  new_client = λ c. success tt;
  parse_url = λ url. none;
  load = λ e c. (e, none);
}

abbrev running : Globals
running =
    client_started
      (record no_globals { store = some (record { pod = "p"; service_to_lease = [] }) }) "p" true

init_server-init_client_example :
    init_server calm running "yapr.yaml" "svr-1" ≢ ok (running, new_server)
unfolding init_client with_store new_impl load_config_file register_store
init_server-init_client_example =
    init_server-init_client calm no_globals "yapr.yaml" "yapr.yaml" "p" "svr-1" true (running, "p")
      (running, new_server) refl refl refl
