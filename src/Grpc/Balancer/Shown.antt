-- ===== src/Grpc/Balancer/Shown.antt =====
-- What gRPC has been told last of the balancer of pkg/yapr/core/grpc/balancer.go.
use yapr.Prelude.{
  ℕ, String, Bool, true, false, List, [], ◌∷◌, ◌++◌, Option, none, some, ◌≡◌, refl, ◌∙◌, string_eq,
  nat_eq, Bool-cases, inl, inr, ◌&&◌, ◌||◌,
}
use yapr.Prelude.Dict.{Dict, lookup, has}
use yapr.Errcode.{coded, other, err_no_endpoint_available, Error, Result, success, failure}
use yapr.Types.{Router}
use yapr.Grpc.Resolver.{Resolved}
use yapr.Grpc.Balancer.{
  ConnState, connecting, transient_failure, is_failing, Picker, no_sub_conn_picker, Effect,
  connects, shuts, publishes, Balancer, new_balancer, regenerate_picker, call, publish, is_empty,
  on_resolver_error,
}
use yapr.Grpc.Balancer.Updates.{
  ClientState, created, connected, connect_all, connect_endpoints, shut_unless, shut_removed,
  replaced, reconnected, with_endpoints, with_attributes, update_client_conn_state, moved, is_idle,
  is_connecting, known_state, update_sub_conn_state,
}

-- The state and the picker that were published last.
abbrev pub last_published : ConnState × Picker → List Effect → ConnState × Picker
last_published former [] = former
last_published former (publishes s p ∷ effects) = last_published (s, p) effects
last_published former (connects c ∷ effects) = last_published former effects
last_published former (shuts c ∷ effects) = last_published former effects

published_last :
    (former : ConnState × Picker) (effects : List Effect) (s : ConnState) (p : Picker)
    → last_published former (effects ++ publishes s p ∷ []) ≡ (s, p)
published_last former [] s p = refl
published_last former (publishes s' p' ∷ effects) s p = published_last (s', p') effects s p
published_last former (connects c ∷ effects) s p = published_last former effects s p
published_last former (shuts c ∷ effects) s p = published_last former effects s p

published_connects :
    (former : ConnState × Picker) (effects : List Effect) (c : ℕ)
    → last_published former (effects ++ connects c ∷ []) ≡ last_published former effects
published_connects former [] c = refl
published_connects former (publishes s' p' ∷ effects) c = published_connects (s', p') effects c
published_connects former (connects d ∷ effects) c = published_connects former effects c
published_connects former (shuts d ∷ effects) c = published_connects former effects c

published_shuts :
    (former : ConnState × Picker) (effects : List Effect) (c : ℕ)
    → last_published former (effects ++ shuts c ∷ []) ≡ last_published former effects
published_shuts former [] c = refl
published_shuts former (publishes s' p' ∷ effects) c = published_shuts (s', p') effects c
published_shuts former (connects d ∷ effects) c = published_shuts former effects c
published_shuts former (shuts d ∷ effects) c = published_shuts former effects c

module _ {X : Type 0} where
  -- What was published last is the balancer's state and picker, which start as `Build` sets them.
  abbrev pub IsShown : Balancer X → Type 0
  IsShown b = last_published (connecting, no_sub_conn_picker) b.effects ≡ (b.state, b.picker)

  publish-IsShown : (b : Balancer X) → IsShown (publish b)
  publish-IsShown b = published_last _ b.effects b.state b.picker

  on_resolver_error-IsShown :
      (err : Error) (b : Balancer X) → IsShown b → IsShown (on_resolver_error err b)
  unfolding on_resolver_error
  on_resolver_error-IsShown err b shown = elim (Bool-cases (is_empty b.sub_conns)) [
    | inl empty ↦ rw empty (
        publish-IsShown
          (regenerate_picker (record b { resolver_err = some err; state = transient_failure })))
    | inr connected ↦ elim (Bool-cases (is_failing b.state)) [
      | inl failing ↦
          rw (connected, failing)
            (publish-IsShown (regenerate_picker (record b { resolver_err = some err })))
      | inr fine ↦ rw (connected, fine) shown
    ]
  ]

  module _ (evaluate : X → ConnState → ConnState → X × ConnState)
      (connect : X → String → X × Result ℕ) where
    created-IsShown :
        (addr : String) (b : Balancer X) (fresh : Dict String ℕ) (made : X × Result ℕ)
        → IsShown b
        → IsShown (created evaluate connect addr b fresh made).0
    created-IsShown addr b fresh (x, failure err) shown =
        on_resolver_error-IsShown err (record b { outside = x }) shown
    created-IsShown addr b fresh (x, success c) shown = published_connects _ b.effects c ∙ shown

    connected-IsShown :
        (addr : String) (b : Balancer X) (fresh : Dict String ℕ) (known : Option ℕ)
        → IsShown b
        → IsShown (connected evaluate connect addr b fresh known).0
    connected-IsShown addr b fresh (some c) shown = shown
    connected-IsShown addr b fresh none shown =
        created-IsShown addr b fresh (connect b.outside addr) shown

    connect_all-IsShown :
        (addrs : List String) (b : Balancer X) (fresh : Dict String ℕ)
        → IsShown b
        → IsShown (connect_all evaluate connect addrs b fresh).0
    unfolding connect_all
    connect_all-IsShown [] b fresh shown = shown
    connect_all-IsShown (addr ∷ addrs) b fresh shown =
        connect_all-IsShown addrs _ _
          (connected-IsShown addr b fresh (lookup addr b.sub_conns) shown)

    connect_endpoints-IsShown :
        (rs : List Resolved) (b : Balancer X) (fresh : Dict String ℕ)
        → IsShown b
        → IsShown (connect_endpoints evaluate connect rs b fresh).0
    unfolding connect_endpoints
    connect_endpoints-IsShown [] b fresh shown = shown
    connect_endpoints-IsShown (r ∷ rs) b fresh shown =
        connect_endpoints-IsShown rs _ _ (connect_all-IsShown r.addresses b fresh shown)

    shut_unless-IsShown :
        (kept : Bool) (c : ℕ) (b : Balancer X)
        → IsShown b
        → IsShown (shut_unless evaluate connect kept c b)
    shut_unless-IsShown true c b shown = shown
    shut_unless-IsShown false c b shown = published_shuts _ b.effects c ∙ shown

    shut_removed-IsShown :
        (m fresh : Dict String ℕ) (b : Balancer X)
        → IsShown b
        → IsShown (shut_removed evaluate connect m fresh b)
    unfolding shut_removed
    shut_removed-IsShown [] fresh b shown = shown
    shut_removed-IsShown ((addr, c) ∷ m) fresh b shown =
        shut_removed-IsShown m fresh _ (shut_unless-IsShown (has addr fresh) c b shown)

    replaced-IsShown :
        (fresh : Dict String ℕ) (b : Balancer X)
        → IsShown b
        → IsShown (replaced evaluate connect fresh b).0
    replaced-IsShown fresh b shown = elim (Bool-cases (is_empty fresh)) [
      | inl empty ↦ rw empty (on_resolver_error-IsShown (coded err_no_endpoint_available) b shown)
      | inr filled ↦ rw filled (publish-IsShown (regenerate_picker b))
    ]

    reconnected-IsShown :
        (p : Balancer X × Dict String ℕ) → IsShown p.0 → IsShown (reconnected evaluate connect p).0
    reconnected-IsShown (b, fresh) shown =
        let shut = shut_removed evaluate connect b.sub_conns fresh b in
        replaced-IsShown fresh (record shut { sub_conns = fresh })
          (shut_removed-IsShown b.sub_conns fresh b shown)

    with_endpoints-IsShown :
        (b : Balancer X) (rs : List Resolved)
        → IsShown b
        → IsShown (with_endpoints evaluate connect b rs).0
    with_endpoints-IsShown b [] shown = on_resolver_error-IsShown (other "no endpoints") b shown
    with_endpoints-IsShown b (r ∷ rs) shown =
        reconnected-IsShown _ (connect_endpoints-IsShown (r ∷ rs) b [] shown)

    update_client_conn_state-IsShown :
        (s : ClientState) (b : Balancer X)
        → IsShown b
        → IsShown (update_client_conn_state evaluate connect s b).0
    unfolding update_client_conn_state
    update_client_conn_state-IsShown s b shown = go s.attributes
      where
        go :
            (attributes : Option (Router × ℕ))
            → IsShown
                (with_attributes evaluate connect
                  (record b { resolver_err = none })
                  attributes
                  s.endpoints).0
        go none =
            on_resolver_error-IsShown (other "attributes is nil") (record b { resolver_err = none })
              shown
        go (some (router, port)) =
            with_endpoints-IsShown
              (record b { resolver_err = none; router = some router; port = port }) s.endpoints
              shown

    moved-IsShown :
        (c : ℕ) (s : ConnState) (err : Option Error) (b : Balancer X) (old : ConnState)
        → IsShown (publish (moved evaluate connect c s err b old))
    moved-IsShown c s err b old = publish-IsShown (moved evaluate connect c s err b old)

    update_sub_conn_state-IsShown :
        (c : ℕ) (s : ConnState) (err : Option Error) (b : Balancer X)
        → IsShown b
        → IsShown (update_sub_conn_state evaluate connect c s err b)
    unfolding update_sub_conn_state
    update_sub_conn_state-IsShown c s err b shown = go (lookup c b.sc_states)
      where
        connects_shown : IsShown (call (connects c) b)
        connects_shown = published_connects (connecting, no_sub_conn_picker) b.effects c ∙ shown

        go : (known : Option ConnState) → IsShown (known_state evaluate connect c s err b known)
        go none = shown
        go (some old) = elim (Bool-cases (is_failing old && (is_connecting s || is_idle s))) [
          | inl ignored ↦ elim (Bool-cases (is_idle s)) [
            | inl rests ↦ rw (ignored, rests) connects_shown
            | inr goes ↦ rw (ignored, goes) shown
          ]
          | inr changed ↦ rw changed (moved-IsShown c s err b old)
        ]

    -- What gRPC calls.
    pub data BalancerCall : Type 0 where
      resolver_fails : Error → BalancerCall
      resolver_finds : ClientState → BalancerCall
      reports : ℕ → ConnState → Option Error → BalancerCall

    abbrev pub after_call : BalancerCall → Balancer X → Balancer X
    after_call (resolver_fails err) b = on_resolver_error err b
    after_call (resolver_finds s) b = (update_client_conn_state evaluate connect s b).0
    after_call (reports c s err) b = update_sub_conn_state evaluate connect c s err b

    abbrev pub after_calls : List BalancerCall → Balancer X → Balancer X
    after_calls [] b = b
    after_calls (c ∷ calls) b = after_calls calls (after_call c b)

    after_call-IsShown : (c : BalancerCall) (b : Balancer X) → IsShown b → IsShown (after_call c b)
    after_call-IsShown (resolver_fails err) b shown = on_resolver_error-IsShown err b shown
    after_call-IsShown (resolver_finds s) b shown = update_client_conn_state-IsShown s b shown
    after_call-IsShown (reports c s err) b shown = update_sub_conn_state-IsShown c s err b shown

    after_calls-IsShown :
        (calls : List BalancerCall) (b : Balancer X) → IsShown b → IsShown (after_calls calls b)
    after_calls-IsShown [] b shown = shown
    after_calls-IsShown (c ∷ calls) b shown =
        after_calls-IsShown calls (after_call c b) (after_call-IsShown c b shown)

    -- Whatever gRPC calls of a new balancer, and in whichever order: the state and the picker that the
    -- balancer has are those that it published last, or, before the first time, those it starts with.
    pub new_balancer-IsShown :
        (calls : List BalancerCall) (x : X) → IsShown (after_calls calls (new_balancer x))
    new_balancer-IsShown calls x = after_calls-IsShown calls (new_balancer x) refl
