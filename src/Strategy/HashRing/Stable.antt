-- ===== src/Strategy/HashRing/Stable.antt =====
-- A new endpoint on the ring takes keys over, and moves no key between the others.
use yapr.Prelude.{
  ℕ, ◌≡◌, String, [], ◌∷◌, ◌++◌, some, arith, nat_eq, string_eq, Option-cases, inl, inr, ◌⊎◌,
  or_default, ◌*◌, ◌∙◌, sym,
}
use yapr.Prelude.Dict.{lookup}
use yapr.Endpoint.{Endpoint}
use yapr.Types.{Attribute, MatchTarget, weight_of}
use yapr.Go.{ok, >>=-eq-ok, ok_injective}
use yapr.TreeMap.{TreeMap}
use yapr.Strategy.{Candidates, selected}
use yapr.Strategy.HashRing.{HashRing, put_nodes, fill, update, owner, select}
use yapr.Strategy.HashRing.Consistent.{
  Owns, Owns-unique, Owns-owner, Owns-put_nodes, fill-append, on_ring, update-fill,
}

module _ (tree : TreeMap Endpoint) (hash : String → ℕ) where
  open tree use {Map, new, size}

  -- What a selection that succeeds has found.
  record Hit (r : HashRing tree hash) (m : Map) (target : MatchTarget) (e : Endpoint) : Type 0 where
    value : String
    sent : lookup r.header_key target.headers ≡ some value
    key : ℕ
    owns : Owns tree m (hash value) key e

  Hit-select :
      (r : HashRing tree hash) (m : Map) (target : MatchTarget) (e : Endpoint)
      → select tree hash (on_ring tree hash r m) target ≡ ok (selected e)
      → Hit r m target e
  unfolding select
  Hit-select r m target e h = elim (Option-cases (lookup r.header_key target.headers)) [
    | inl nothing ↦ absurd (ground (arith, nothing))
    | inr (value, sent) ↦ elim (Option-cases (owner tree m (hash value))) [
      | inl lost ↦ absurd (ground (arith, sent, lost))
      | inr ((key, d), found) ↦
          let same : d ≡ e = ground (arith, sent, found) in
          record {
            value = value;
            sent = sent;
            key = key;
            owns = Owns-owner tree m (hash value) key e (found ∙ ground (arith, same));
          }
    ]
  ]

  Owns-at :
      (m m' : Map) (v v' : String) (k : ℕ) (e : Endpoint)
      → m ≡ m'
      → v ≡ v'
      → Owns tree m (hash v) k e
      → Owns tree m' (hash v') k e
  Owns-at m m' v v' k e same_map same_value h = rw (same_map, same_value) at h

  value_of :
      (r : HashRing tree hash) (target : MatchTarget) (v w : String)
      → lookup r.header_key target.headers ≡ some v
      → lookup r.header_key target.headers ≡ some w
      → v ≡ w
  value_of r target v w h k = cc

  -- Let `Update` return for some candidates, and for the same with one endpoint behind them, and let
  -- `Select` return an endpoint for a request in both cases. Then the second is the new endpoint, or
  -- it is the first.
  pub select-stable :
      (r r₁ r₂ : HashRing tree hash) (c : Candidates) (d : Endpoint) (a : Attribute)
      (target : MatchTarget) (e₁ e₂ : Endpoint)
      → update tree hash r c ≡ ok r₁
      → update tree hash r (c ++ (d, a) ∷ []) ≡ ok r₂
      → select tree hash r₁ target ≡ ok (selected e₁)
      → select tree hash r₂ target ≡ ok (selected e₂)
      → (e₂ ≡ d) ⊎ (e₂ ≡ e₁)
  unfolding fill
  select-stable r r₁ r₂ c d a target e₁ e₂ made₁ made₂ found₁ found₂ =
      let (m₁, filled₁, same₁) = update-fill tree hash r r₁ c made₁ in
      let (m₂, filled₂, same₂) = update-fill tree hash r r₂ (c ++ (d, a) ∷ []) made₂ in
      let more : fill tree hash ((d, a) ∷ []) m₁ ≡ ok m₂ =
        rw filled₁ at (sym (fill-append tree hash c d a new) ∙ filled₂) in
      let (w, read, nodes) = >>=-eq-ok (weight_of a) _ more in
      let hit₁ = Hit-select r m₁ target e₁ (rw same₁ at found₁) in
      let hit₂ = Hit-select r m₂ target e₂ (rw same₂ at found₂) in
      let owns₂ : Owns tree (put_nodes tree hash d 0 (or_default w 1 * 8) m₁) (hash hit₁.value)
          hit₂.key e₂ =
        Owns-at m₂ (put_nodes tree hash d 0 (or_default w 1 * 8) m₁) hit₂.value hit₁.value hit₂.key
          e₂ (sym (ok_injective nodes))
          (value_of r target hit₂.value hit₁.value hit₂.sent hit₁.sent) hit₂.owns in
      elim (Owns-put_nodes tree hash d 0 (or_default w 1 * 8) m₁ (hash hit₁.value) hit₂.key e₂
        owns₂) [
          | inl new_one ↦ inl new_one
          | inr old ↦
              inr (Owns-unique tree m₁ (hash hit₁.value) hit₂.key hit₁.key e₂ e₁ old hit₁.owns)
        ]
