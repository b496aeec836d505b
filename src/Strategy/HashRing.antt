-- ===== src/Strategy/HashRing.antt =====
-- pkg/yapr/core/strategy/impl/hash_ring.go. `hash` is `strategy.HashString` (the CRC-32 of the
-- standard library).
pub mod Consistent
pub mod Stable
use yapr.Prelude.{
  ℕ, zero, suc, ◌+◌, ◌*◌, ◌-◌, ◌<◌, ◌≤◌, ◌≡◌, refl, sym, ap, String, Bool, true, false, List, [],
  ◌∷◌, ◌++◌, Option, none, some, arith, ◌==◌, nat_eq, string_eq, if◌then◌else◌, or_default,
  Option-cases, Bool-cases, inl, inr, ◌⊎◌, ==_iff,
}
use yapr.Prelude.Dict.{Dict, lookup}
use yapr.Endpoint.{Endpoint, to_string}
use yapr.Errcode.{err_no_endpoint_available, err_no_value_available}
use yapr.Types.{MatchTarget, weight_of}
use yapr.Text.{concat}
use yapr.Text.Decimal.{format}
use yapr.Go.{Go, ok, panic, nil_dereference, ◌>>=◌}
use yapr.TreeMap.{TreeMap}
use yapr.Strategy.{Candidates, Selected, selected, failed}

abbrev or_else : Option (ℕ × Endpoint) → Option (ℕ × Endpoint) → Option (ℕ × Endpoint)
or_else none other = other
or_else (some node) other = some node

module _ (tree : TreeMap Endpoint) where
  open tree use {Map, ceiling, min}

  -- `Ceiling`, or `Min` behind the last node
  abbrev pub owner : Map → ℕ → Option (ℕ × Endpoint)
  owner m hashed = or_else (ceiling hashed m) (min m)

module _ (tree : TreeMap Endpoint) (hash : String → ℕ) where
  open tree use {Map, new, put, size}

  -- `ring` is nil until the first `Update`.
  pub record HashRing : Type 0 where
    pub header_key : String
    pub ring : Option Map

  -- the inner loop of `Update`, over the `n` numbers from `i`
  unfoldable pub put_nodes : Endpoint → ℕ → ℕ → Map → Map
  put_nodes endpoint i zero m = m
  put_nodes endpoint i (suc n) m =
      put_nodes endpoint (suc i) n (put (hash (concat (to_string endpoint) (format i))) endpoint m)

  -- the outer loop
  unfoldable pub fill : Candidates → Map → Go Map
  fill [] m = ok m
  fill ((endpoint, attr) ∷ rest) m = do
    weight ← weight_of attr
    fill rest (put_nodes endpoint 0 (or_default weight 1 * 8) m)

  unfoldable pub update : HashRing → Candidates → Go HashRing
  update r endpoints = do m ← fill endpoints new; ok (record r { ring = some m })

  abbrev first_of_ring : Option (ℕ × Endpoint) → Selected
  first_of_ring none = failed err_no_endpoint_available
  first_of_ring (some (k, endpoint)) = selected endpoint

  unfoldable pub select : HashRing → MatchTarget → Go Selected
  select r target = elim r.ring [
    | none ↦ panic nil_dereference
    | some m ↦
        if size m == 0
        then ok (failed err_no_endpoint_available)
        else elim (lookup r.header_key target.headers) [
          | none ↦ ok (failed err_no_value_available)
          | some value ↦ ok (first_of_ring (owner tree m (hash value)))
        ]
  ]
