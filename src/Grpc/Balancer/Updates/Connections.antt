-- ===== src/Grpc/Balancer/Updates/Connections.antt =====
-- The connections after `UpdateClientConnState` of pkg/yapr/core/grpc/balancer.go.
use yapr.Prelude.{
  ℕ, String, Bool, true, false, List, [], ◌∷◌, ◌++◌, Option, none, some, is_some, ◌≡◌, refl, sym,
  ap, ◌∙◌, arith, ◌==◌, string_eq, if◌then◌else◌, ◌||◌, contains, ==_iff, Bool-cases, inl, inr,
}
use yapr.Prelude.Dict.{Dict, lookup, insert, has, lookup-insert}
use yapr.Errcode.{Error, coded, Result, success, err_no_endpoint_available}
use yapr.Types.{Router}
use yapr.Grpc.Resolver.{Resolved}
use yapr.Grpc.Resolver.Addresses.{all_addresses}
use yapr.Grpc.Balancer.{
  ConnState, Effect, connects, shuts, publishes, Balancer, regenerate_picker, call, publish,
  is_empty, is_failing, on_resolver_error, transient_failure,
}
use yapr.Grpc.Balancer.Updates.{
  ClientState, connected, connect_all, connect_endpoints, shut_removed, replaced,
  update_client_conn_state,
}

-- The connection of an address after an update, by the one before it and whether the address is wanted.
abbrev pub Keeps : Option ℕ → Option ℕ → Bool → Type 0
Keeps old new false = new ≡ none
Keeps (some c) new true = new ≡ some c
Keeps none new true = is_some new ≡ true

-- the connections that are shut
abbrev pub shut_conns : List Effect → List ℕ
shut_conns [] = []
shut_conns (connects c ∷ effects) = shut_conns effects
shut_conns (shuts c ∷ effects) = c ∷ shut_conns effects
shut_conns (publishes s p ∷ effects) = shut_conns effects

-- the connections whose address is not wanted
abbrev pub dropped : Dict String ℕ → List String → List ℕ
dropped [] addrs = []
dropped ((a, c) ∷ m) addrs = if contains a addrs then dropped m addrs else c ∷ dropped m addrs

contains-append :
    (a : String) (xs ys : List String) → contains a (xs ++ ys) ≡ (contains a xs || contains a ys)
contains-append a [] ys = refl
contains-append a (x ∷ xs) ys = ground (arith, contains-append a xs ys)

shut_conns-append : (xs ys : List Effect) → shut_conns (xs ++ ys) ≡ shut_conns xs ++ shut_conns ys
shut_conns-append [] ys = refl
shut_conns-append (connects c ∷ xs) ys = shut_conns-append xs ys
shut_conns-append (shuts c ∷ xs) ys = ap (◌∷◌ c) (shut_conns-append xs ys)
shut_conns-append (publishes s p ∷ xs) ys = shut_conns-append xs ys

Keeps-has : (old new : Option ℕ) (wanted : Bool) → Keeps old new wanted → is_some new ≡ wanted
Keeps-has old new false h = rw h refl
Keeps-has (some c) new true h = rw h refl
Keeps-has none new true h = h

or_true : (b : Bool) → (b || true) ≡ true
or_true true = refl
or_true false = refl

or_false : (b : Bool) → (b || false) ≡ b
or_false true = refl
or_false false = refl

or_assoc : (a b c : Bool) → (a || (b || c)) ≡ ((a || b) || c)
or_assoc true b c = refl
or_assoc false b c = refl

append_nil : (l : List ℕ) → l ++ [] ≡ l
append_nil [] = refl
append_nil (x ∷ l) = ap (◌∷◌ x) (append_nil l)

append_cons : (l : List ℕ) (c : ℕ) (m : List ℕ) → (l ++ c ∷ []) ++ m ≡ l ++ c ∷ m
append_cons [] c m = refl
append_cons (x ∷ l) c m = ap (◌∷◌ x) (append_cons l c m)

module _ {X : Type 0} (evaluate : X → ConnState → ConnState → X × ConnState)
    (connect : X → String → X × Result ℕ)
    (opens : (x : X) (addr : String)
      → (x' : X) × (c : ℕ) × (connect x addr ≡ (x', success c))) where
  -- What the loops keep: the former connections, the shut ones, and the wanted connections so far.
  abbrev Going : Dict String ℕ → List ℕ → String → Bool → Balancer X × Dict String ℕ → Type 0
  Going old closed a wanted p =
      (p.0.sub_conns ≡ old)
      × (shut_conns p.0.effects ≡ closed)
      × Keeps (lookup a old) (lookup a p.1) wanted

  insert-Keeps :
      (a addr : String) (old : Option ℕ) (fresh : Dict String ℕ) (c : ℕ) (wanted : Bool)
      → ((addr == a) ≡ true → Keeps old (some c) true)
      → Keeps old (lookup a fresh) wanted
      → Keeps old (lookup a (insert addr c fresh)) (wanted || addr == a)
  insert-Keeps a addr old fresh c wanted fits kept = elim (Bool-cases (addr == a)) [
    | inl same ↦ rw (lookup-insert addr a c fresh, same, or_true wanted) (fits same)
    | inr other ↦ rw (lookup-insert addr a c fresh, other, or_false wanted) kept
  ]

  connected-Going :
      (addr : String) (b : Balancer X) (fresh : Dict String ℕ) (known : Option ℕ)
      (old : Dict String ℕ) (closed : List ℕ) (a : String) (wanted : Bool)
      → lookup addr old ≡ known
      → Going old closed a wanted (b, fresh)
      → Going old closed a (wanted || addr == a) (connected evaluate connect addr b fresh known)
  connected-Going addr b fresh (some c) old closed a wanted is (conns, closing, kept) =
      (conns, closing, insert-Keeps a addr (lookup a old) fresh c wanted fits kept)
    where
      fits : (addr == a) ≡ true → Keeps (lookup a old) (some c) true
      fits same = rw (ap (λ k. lookup k old) (sym ((==_iff addr a).0 same)) ∙ is) refl
  connected-Going addr b fresh none old closed a wanted is (conns, closing, kept) =
      let (x', c, made) = opens b.outside addr in
      rw made (
        conns,
        shut_conns-append b.effects (connects c ∷ [])
            ∙ ap (λ l. l ++ []) closing
            ∙ append_nil closed,
        insert-Keeps a addr (lookup a old) fresh c wanted
            (λ same. rw (ap (λ k. lookup k old) (sym ((==_iff addr a).0 same)) ∙ is) refl) kept,
      )

  connect_all-Going :
      (addrs : List String) (b : Balancer X) (fresh : Dict String ℕ) (old : Dict String ℕ)
      (closed : List ℕ) (a : String) (wanted : Bool)
      → Going old closed a wanted (b, fresh)
      → Going old closed a (wanted || contains a addrs) (connect_all evaluate connect addrs b fresh)
  unfolding connect_all
  connect_all-Going [] b fresh old closed a wanted going = rw (or_false wanted) going
  connect_all-Going (addr ∷ addrs) b fresh old closed a wanted going =
      let known : lookup addr old ≡ lookup addr b.sub_conns =
        ap (λ m. lookup addr m) (sym going.0) in
      let p = connected evaluate connect addr b fresh (lookup addr b.sub_conns) in
      let one =
        connected-Going addr b fresh (lookup addr b.sub_conns) old closed a wanted known going in
      rw (or_assoc wanted (addr == a) (contains a addrs))
        (connect_all-Going addrs p.0 p.1 old closed a (wanted || addr == a) one)

  connect_endpoints-Going :
      (rs : List Resolved) (b : Balancer X) (fresh : Dict String ℕ) (old : Dict String ℕ)
      (closed : List ℕ) (a : String) (wanted : Bool)
      → Going old closed a wanted (b, fresh)
      → Going old closed a
          (wanted || contains a (all_addresses rs))
          (connect_endpoints evaluate connect rs b fresh)
  unfolding connect_endpoints
  connect_endpoints-Going [] b fresh old closed a wanted going = rw (or_false wanted) going
  connect_endpoints-Going (r ∷ rs) b fresh old closed a wanted going =
      let p = connect_all evaluate connect r.addresses b fresh in
      let one = connect_all-Going r.addresses b fresh old closed a wanted going in
      rw
        (
          contains-append a r.addresses (all_addresses rs),
          or_assoc wanted (contains a r.addresses) (contains a (all_addresses rs)),
        )
        (connect_endpoints-Going rs p.0 p.1 old closed a (wanted || contains a r.addresses) one)

  shut_removed_lem :
      (m fresh : Dict String ℕ) (addrs : List String) (b : Balancer X)
      → ((a : String) → has a fresh ≡ contains a addrs)
      → shut_conns (shut_removed evaluate connect m fresh b).effects
        ≡ shut_conns b.effects ++ dropped m addrs
  unfolding shut_removed
  shut_removed_lem [] fresh addrs b same = sym (append_nil (shut_conns b.effects))
  shut_removed_lem ((a, c) ∷ m) fresh addrs b same = elim (Bool-cases (contains a addrs)) [
    | inl wanted ↦ rw (shut_removed, same a, wanted) (shut_removed_lem m fresh addrs b same)
    | inr gone ↦
        rw (shut_removed, same a, gone)
          (shut_removed_lem m fresh addrs (call (shuts c) b) same
            ∙ ap (λ l. l ++ dropped m addrs) (shut_conns-append b.effects (shuts c ∷ []))
            ∙ append_cons (shut_conns b.effects) c (dropped m addrs))
  ]

  -- The connections and the shut ones are as they were.
  abbrev Alike : Balancer X → Balancer X → Type 0
  Alike b' b = (b'.sub_conns ≡ b.sub_conns) × (shut_conns b'.effects ≡ shut_conns b.effects)

  publish-Alike : (b : Balancer X) → Alike (publish (regenerate_picker b)) b
  unfolding regenerate_picker
  publish-Alike b = (refl, shut_conns-append b.effects _ ∙ append_nil (shut_conns b.effects))

  on_resolver_error-Alike : (err : Error) (b : Balancer X) → Alike (on_resolver_error err b) b
  unfolding on_resolver_error
  on_resolver_error-Alike err b =
      let state = if is_empty b.sub_conns then transient_failure else b.state in
      let noted = record b { resolver_err = some err; state = state } in
      elim (Bool-cases (is_failing state)) [
        | inl failing ↦ rw failing (publish-Alike noted)
        | inr fine ↦ rw fine (refl, refl)
      ]

  replaced-Alike :
      (fresh : Dict String ℕ) (b : Balancer X) → Alike (replaced evaluate connect fresh b).0 b
  replaced-Alike fresh b = elim (Bool-cases (is_empty fresh)) [
    | inl empty ↦ rw empty (on_resolver_error-Alike (coded err_no_endpoint_available) b)
    | inr filled ↦ rw filled (publish-Alike b)
  ]

  -- Where connections can be opened, and the resolver's state has attributes and an endpoint at least:
  -- after `UpdateClientConnState` an address has a connection exactly if it is among the addresses of the
  -- state, the former connection if it had one; the connections that are shut are those, each once, whose
  -- addresses are no longer there.
  pub update_client_conn_state_connections :
      (b : Balancer X) (router : Router) (port : ℕ) (r : Resolved) (rs : List Resolved) (a : String)
      → let s : ClientState = record { attributes = some (router, port); endpoints = r ∷ rs } in
        let b' = (update_client_conn_state evaluate connect s b).0 in
        let addrs = all_addresses (r ∷ rs) in
        Keeps (lookup a b.sub_conns) (lookup a b'.sub_conns) (contains a addrs)
        × (has a b'.sub_conns ≡ contains a addrs)
        × (shut_conns b'.effects ≡ shut_conns b.effects ++ dropped b.sub_conns addrs)
  unfolding update_client_conn_state lookup
  update_client_conn_state_connections b router port r rs a = (
    rw alike.0 (going a).2,
    rw alike.0 (present a),
    alike.1
        ∙ shut
        ∙ ap (λ m. shut_conns p.0.effects ++ dropped m addrs) (going a).0
        ∙ ap (λ l. l ++ dropped b.sub_conns addrs) (going a).1,
  )
    where
      b₀ : Balancer X
      b₀ = record b { resolver_err = none; router = some router; port = port }

      addrs : List String
      addrs = all_addresses (r ∷ rs)

      p : Balancer X × Dict String ℕ
      p = connect_endpoints evaluate connect (r ∷ rs) b₀ []

      going : (x : String) → Going b.sub_conns (shut_conns b.effects) x (contains x addrs) p
      going x =
          connect_endpoints-Going (r ∷ rs) b₀ [] b.sub_conns (shut_conns b.effects) x false
            (refl, refl, refl)

      present : (x : String) → has x p.1 ≡ contains x addrs
      present x = Keeps-has (lookup x b.sub_conns) (lookup x p.1) (contains x addrs) (going x).2

      b₁ : Balancer X
      b₁ = record (shut_removed evaluate connect p.0.sub_conns p.1 p.0) { sub_conns = p.1 }

      alike : Alike (replaced evaluate connect p.1 b₁).0 b₁
      alike = replaced-Alike p.1 b₁

      shut : shut_conns b₁.effects ≡ shut_conns p.0.effects ++ dropped p.0.sub_conns addrs
      shut = shut_removed_lem p.0.sub_conns p.1 addrs p.0 present
