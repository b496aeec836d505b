-- ===== src/Store/Config/Loaded.antt =====
-- What a cluster that is up holds after `LoadConfig`.
use text.Mathlib.TextPositions.{compare_refl}
use yapr.Prelude.{
  String, Bool, true, false, List, [], ◌∷◌, Option, none, some, ◌≡◌, refl, ap, ◌∙◌, ◌==◌, string_eq,
  if◌then◌else◌, Bool-cases, inl, inr,
}
use yapr.Errcode.{Result, success, failure}
use yapr.Types.{Router, Selector}
use yapr.Store.Etcd.{Etcd, IsUp}
use yapr.Store.Config.{
  YaprConfig, at_least, put_all, selector_entries, router_entries, write_config, by_version,
  load_config,
}

-- The last value that the entries write at a key, or the former one.
abbrev pub last_written : String → List (String × Result String) → Option String → Option String
last_written k [] former = former
last_written k ((j, failure err) ∷ rest) former = last_written k rest former
last_written k ((j, success json) ∷ rest) former =
    last_written k rest (if j == k then some json else former)

module _ {E : Type 0} (etcd : Etcd E) (up : IsUp etcd) where
  put_all_lem :
      (entries : List (String × Result String)) (s : E) (k : String)
      → ((put_all etcd entries s).1 ≡ none)
        × (up.stored (put_all etcd entries s).0 k ≡ last_written k entries (up.stored s k))
  unfolding put_all
  put_all_lem [] s k = (refl, refl)
  put_all_lem ((j, failure err) ∷ rest) s k = put_all_lem rest s k
  put_all_lem ((j, success json) ∷ rest) s k =
      let (fine, held) = put_all_lem rest (etcd.put s j json).0 k in
      rw (up.put_ok s j json) (fine, held ∙ ap (last_written k rest) (up.stored-put s j json k))

  module _ (encode_selector : Selector → Result String)
      (encode_router : Router → Result String) where
    abbrev pub at_key : YaprConfig → String → Option String → Option String
    at_key c k former =
        if "version" == k
        then some c.version
        else last_written k (router_entries encode_selector encode_router c)
            (last_written k (selector_entries encode_selector encode_router c) former)

    write_config_lem :
        (c : YaprConfig) (s : E) (k : String)
        → ((write_config etcd encode_selector encode_router c s).1 ≡ none)
          × (up.stored (write_config etcd encode_selector encode_router c s).0 k
              ≡ at_key c k (up.stored s k))
    unfolding write_config
    write_config_lem c s k =
        let selectors = selector_entries encode_selector encode_router c in
        let routers = router_entries encode_selector encode_router c in
        let (fine₁, held₁) = put_all_lem selectors s k in
        let (fine₂, held₂) = put_all_lem routers (put_all etcd selectors s).0 k in
        rw (fine₁, fine₂)
          (
            up.put_ok _ "version" c.version,
            up.stored-put _ "version" c.version k
                ∙ ap (λ o. if "version" == k then some c.version else o)
                    (held₂ ∙ ap (last_written k routers) held₁),
          )

    -- The cluster holds the version of the configuration, or one that is not below it as a text.
    abbrev pub is_held : YaprConfig → Option String → Bool
    is_held c none = false
    is_held c (some version) = at_least version c.version

    load_config_cases :
        (c : YaprConfig) (s : E)
        → load_config etcd encode_selector encode_router c s ≡ (
            if is_held c (up.stored s "version")
            then (s, none)
            else write_config etcd encode_selector encode_router c s)
    unfolding load_config
    load_config_cases c s = rw (up.get-stored s "version") (go (up.stored s "version"))
      where
        go :
            (o : Option String)
            → by_version etcd encode_selector encode_router c s (success o) ≡ (
                if is_held c o
                then (s, none)
                else write_config etcd encode_selector encode_router c s)
        go none = refl
        go (some v) = refl

    -- On a cluster that is up, `LoadConfig` returns no error. Where the version there is not below the
    -- configuration's as a text, it changes nothing. Otherwise a key holds afterwards the version, or
    -- the last encoded router or else selector that the configuration has for it, or what it held.
    pub load_config_lem :
        (c : YaprConfig) (s : E) (k : String)
        → ((load_config etcd encode_selector encode_router c s).1 ≡ none)
          × (up.stored (load_config etcd encode_selector encode_router c s).0 k ≡ (
              if is_held c (up.stored s "version")
              then up.stored s k
              else at_key c k (up.stored s k)))
    load_config_lem c s k = elim (Bool-cases (is_held c (up.stored s "version"))) [
      | inl held ↦ rw (load_config_cases c s, held) (refl, refl)
      | inr below ↦ rw (load_config_cases c s, below) (write_config_lem c s k)
    ]

    at_least_refl : (v : String) → at_least v v ≡ true
    at_least_refl v = rw (at_least, compare_refl v) refl

    -- On a cluster that is up, a configuration that was loaded is not loaded again.
    pub load_config_again :
        (c : YaprConfig) (s : E)
        → load_config etcd encode_selector encode_router c
            (load_config etcd encode_selector encode_router c s).0
          ≡ ((load_config etcd encode_selector encode_router c s).0, none)
    load_config_again c s = elim (Bool-cases (is_held c (up.stored s "version"))) [
      | inl held ↦ rw (load_config_cases c s, held) (load_config_cases c s ∙ rw held refl)
      | inr below ↦
          let s' = (write_config etcd encode_selector encode_router c s).0 in
          let version : up.stored s' "version" ≡ some c.version =
            (write_config_lem c s "version").1 in
          let held : is_held c (up.stored s' "version") ≡ true =
            rw version (at_least_refl c.version) in
          rw (load_config_cases c s, below) (load_config_cases c s' ∙ rw held refl)
    ]
