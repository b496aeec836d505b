-- ===== src/Strategy.antt =====
-- pkg/yapr/core/strategy: what `Select` returns, for every strategy.
pub mod Pick
pub mod Count
pub mod Trace
pub mod Random
pub mod RoundRobin
pub mod Weighted
pub mod WeightedRandom
pub mod WeightedRoundRobin
pub mod Least
pub mod HashRing
pub mod Hash
pub mod Cache
pub mod Direct
pub mod CustomLua
use yapr.Prelude.{ℕ, String, Option, none, some, List, []}
use yapr.Prelude.Dict.{Dict}
use yapr.Errcode.{Error, coded, ErrWithCode}
use yapr.Endpoint.{Endpoint}
use yapr.Types.{Attribute}

-- The endpoints that `Update` is given, with their attributes, in the order of its `range` loop.
abbrev pub Candidates : Type 0
Candidates = Dict Endpoint Attribute

-- The three results of `Select`.
pub record Selected : Type 0 where
  pub endpoint : Option Endpoint
  pub headers : Option (Dict String String)
  pub error : Option Error

abbrev pub selected : Endpoint → Selected
selected e = record { endpoint = some e; headers = none; error = none }

abbrev pub failed : ErrWithCode → Selected
failed err = record { endpoint = none; headers = none; error = some (coded err) }
