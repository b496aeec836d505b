-- ===== src/Sdk/Init/Once.antt =====
-- A process has one store and one instance of the SDK.
use yapr.Prelude.{
  String, string_eq, Bool, true, ◌||◌, Option, none, some, ◌==◌, ==_iff, ◌≡◌, ◌≢◌, refl, sym, ap,
  ◌∙◌, arith,
}
use yapr.Prelude.Dict.{Dict, insert, has, lookup-insert}
use yapr.Go.{ok, >>=-eq-ok, ok_injective}
use yapr.Store.Leases.{Impl}
use yapr.Sdk.Server.{YaprSdk}
use yapr.Sdk.Init.{
  Globals, Builder, Environment, registered_at, register_store, must_store, must_client,
  register_builders, or_raise, load_config_file, new_impl, with_store, client_started,
  client_or_new, new_server, init_client, server_or_new, init_server,
}

-- a name of a strategy that the package brings
abbrev pub built_in : String → Bool
built_in name =
    name == "custom_lua"
    || (name == "direct"
        || (name == "hash_ring"
            || (name == "least_cost"
                || (name == "least_request"
                    || (name == "weighted_round_robin"
                        || (name == "weighted_random"
                            || (name == "round_robin" || name == "random")))))))

has-insert :
    (k j : String) (b : Builder) (m : Dict String Builder)
    → has j (insert k b m) ≡ (j == k || has j m)
has-insert k j b m = ground (arith, lookup-insert k j b m, ==_iff k j, ==_iff j k)

has-register_builders :
    (name : String) (b : Dict String Builder)
    → built_in name ≡ true
    → has name (register_builders b) ≡ true
unfolding register_builders
has-register_builders name b known = simp (has-insert) (ground (arith, known))

registered_lem :
    (g g' : Globals) (st : Impl) (former : Option Impl)
    → g.store ≡ former
    → registered_at g st former ≡ ok g'
    → (g.store ≡ none) × (g' ≡ record g { store = some st })
registered_lem g g' st none is done = (is, sym (ok_injective done))
registered_lem g g' st (some former) is done = cc

module _ {E : Type 0} (env : Environment E) where
  with_store-store :
      (g : Globals) (path pod : String) (s : Globals × E)
      → with_store env g path pod ≡ ok s
      → (st : Impl) × (g.store ≡ none) × (s.0 ≡ record g { store = some st })
  unfolding with_store register_store
  with_store-store g path pod s done =
      let (cfg, _, rest) = >>=-eq-ok (or_raise (load_config_file env path)) _ done in
      let (made, is_made, rest') = >>=-eq-ok (new_impl env cfg pod) _ rest in
      let (g', is_registered, same) = >>=-eq-ok (registered_at g made.0 g.store) _ rest' in
      let (free, is) = registered_lem g g' made.0 g.store refl is_registered in
      let first : g' ≡ s.0 = ap (λ (t : Globals × E). t.0) (ok_injective same) in
      (made.0, free, sym first ∙ is)

  client_or_new-new :
      (g : Globals) (path pod : String) (grpc : Bool) (t : Globals × String) (o : Option String)
      → o ≡ none
      → client_or_new env g path grpc pod o ≡ ok t
      → (st : Impl) × (g.store ≡ none)
        × (t ≡ (client_started (record g { store = some st }) pod grpc, pod))
  client_or_new-new g path pod grpc t (some sdk) new done = cc
  client_or_new-new g path pod grpc t none new done =
      let (s, loaded, same) = >>=-eq-ok (with_store env g path pod) _ done in
      let (st, free, is) = with_store-store g path pod s loaded in
      (
        st,
        free,
        sym (ok_injective same) ∙ ap (λ (h : Globals). (client_started h pod grpc, pod)) is,
      )

  server_or_new-new :
      (g : Globals) (path pod : String) (t : Globals × YaprSdk) (o : Option YaprSdk)
      → o ≡ none
      → server_or_new env g path pod o ≡ ok t
      → (st : Impl) × (g.store ≡ none)
        × (t ≡ (
          record g { store = some st; server_sdk = some new_server; migrations_heard = true },
          new_server,
        ))
  server_or_new-new g path pod t (some sdk) new done = cc
  server_or_new-new g path pod t none new done =
      let (s, loaded, same) = >>=-eq-ok (with_store env g path pod) _ done in
      let (st, free, is) = with_store-store g path pod s loaded in
      (
        st,
        free,
        sym (ok_injective same)
            ∙ ap
                (λ (h : Globals).
                  (record h { server_sdk = some new_server; migrations_heard = true }, new_server))
                is,
      )

  -- Let `Init` of the client return, where there is no instance of it yet. Then `MustInstance` gives
  -- what it returned, `MustStore` a store, every strategy of the package has a builder, and a further
  -- `Init` returns the same and changes nothing, whatever its arguments.
  pub init_client_lem :
      (g g' : Globals) (path path' pod pod' sdk name : String) (grpc grpc' : Bool)
      → g.client_sdk ≡ none
      → built_in name ≡ true
      → init_client env g path grpc pod ≡ ok (g', sdk)
      → (must_client g' ≡ ok sdk)
        × ((st : Impl) × (must_store g' ≡ ok st))
        × (has name g'.builders ≡ true)
        × (init_client env g' path' grpc' pod' ≡ ok (g', sdk))
  unfolding init_client must_client must_store
  init_client_lem g g' path path' pod pod' sdk name grpc grpc' new known done =
      let (st, _, is) = client_or_new-new g path pod grpc (g', sdk) g.client_sdk new done in
      let after : g' ≡ client_started (record g { store = some st }) pod grpc =
        ap (λ (t : Globals × String). t.0) is in
      let named : sdk ≡ pod = ap (λ (t : Globals × String). t.1) is in
      rw (after, named) (refl, (st, refl), has-register_builders name g.builders known, refl)

  -- Once `Init` of the client has returned in a process where neither had been called, `Init` of the
  -- server does not return: the store is registered already.
  pub init_server-init_client :
      (g : Globals) (path path' pod pod' : String) (grpc : Bool) (t : Globals × String)
      (u : Globals × YaprSdk)
      → g.client_sdk ≡ none
      → g.server_sdk ≡ none
      → init_client env g path grpc pod ≡ ok t
      → init_server env t.0 path' pod' ≢ ok u
  unfolding init_client init_server
  init_server-init_client g path path' pod pod' grpc t u no_client no_server done again =
      let (st, _, is) = client_or_new-new g path pod grpc t g.client_sdk no_client done in
      let (_, free, _) =
        server_or_new-new t.0 path' pod' u t.0.server_sdk
          (ap (λ (v : Globals × String). v.0.server_sdk) is ∙ no_server) again in
      let held : t.0.store ≡ some st = ap (λ (v : Globals × String). v.0.store) is in
      ground (arith, held, free)

  -- Nor does `Init` of the client, after that of the server.
  pub init_client-init_server :
      (g : Globals) (path path' pod pod' : String) (grpc : Bool) (t : Globals × YaprSdk)
      (u : Globals × String)
      → g.client_sdk ≡ none
      → g.server_sdk ≡ none
      → init_server env g path pod ≡ ok t
      → init_client env t.0 path' grpc pod' ≢ ok u
  unfolding init_client init_server
  init_client-init_server g path path' pod pod' grpc t u no_client no_server done again =
      let (st, _, is) = server_or_new-new g path pod t g.server_sdk no_server done in
      let (_, free, _) =
        client_or_new-new t.0 path' pod' grpc u t.0.client_sdk
          (ap (λ (v : Globals × YaprSdk). v.0.client_sdk) is ∙ no_client) again in
      let held : t.0.store ≡ some st = ap (λ (v : Globals × YaprSdk). v.0.store) is in
      ground (arith, held, free)
