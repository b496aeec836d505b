-- ===== src/Strategy/Cache.antt =====
-- pkg/yapr/core/strategy/impl/cache: the caches of custom routes. What the store's `GetCustomRoute`
-- answers is an argument of a call.
pub mod Lru
use yapr.Prelude.{String, Option}
use yapr.Endpoint.{Endpoint}
use yapr.Errcode.{Result}
use yapr.Go.{Go, ok}

abbrev pub Answer : Type 0
Answer = Result (Option Endpoint)

-- The interface `DirectCache`, for a type of its states.
pub record DirectCache (C : Type 0) : Type 0 where
  pub get : Answer → C → String → Go (C × Answer)
  pub refresh : Answer → C → String → C
  pub clear : C → C

-- `DefaultCache`: every `Get` asks the store.
abbrev pub default_cache : DirectCache (Unit {0})
default_cache = record {
  get = λ stored c value. ok (c, stored);
  refresh = λ stored c value. c;
  clear = λ c. c;
}
