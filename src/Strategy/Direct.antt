-- ===== src/Strategy/Direct.antt =====
-- pkg/yapr/core/strategy/impl/direct.go, over a cache of custom routes.
use yapr.Prelude.{
  ℕ, zero, suc, String, Bool, true, false, [], ◌∷◌, Option, none, some, ◌≡◌, refl, ◌==◌, string_eq,
  if◌then◌else◌,
}
use yapr.Prelude.Dict.{Dict, lookup, has}
use yapr.Endpoint.{Endpoint, endpoint_eq}
use yapr.Errcode.{
  coded, success, failure, err_no_key_available, err_no_endpoint_available, err_no_value_available,
  err_cache_not_found, err_endpoint_unavailable,
}
use yapr.Go.{Go, ok, ◌>>=◌}
use yapr.Types.{MatchTarget, Selector, BufferType, buffer_lru, buffer_none, other_buffer}
use yapr.Strategy.{Candidates, Selected, failed}
use yapr.Strategy.Cache.{Answer, DirectCache}
use yapr.Strategy.Cache.Lru.{LruCache, lru_cache}
use yapr.Strategy.Cache.Lru.Endpoints.{get-refresh}

pub record Direct (C : Type 0) : Type 0 where
  pub header_key : String
  pub cache : Option C
  pub endpoints : Candidates

-- `size`, which is never 0
abbrev pub cache_size_of : Option ℕ → ℕ
cache_size_of none = 4096
cache_size_of (some zero) = 4096
cache_size_of (some (suc n)) = suc n

-- `Build`, from the two constructors of a cache
abbrev pub cache_of : {C : Type 0} → (ℕ → C) → C → BufferType → ℕ → C
cache_of lru default buffer_lru size = lru size
cache_of lru default buffer_none size = default
cache_of lru default (other_buffer name) size = default

unfoldable pub build : {C : Type 0} → (ℕ → C) → C → Selector → Direct C
build lru default s = record {
  header_key = s.key;
  cache = some (cache_of lru default s.cache_type (cache_size_of s.cache_size));
  endpoints = [];
}

abbrev pub value_headers : String → Dict String String
value_headers value = ("yapr-header-value", value) ∷ []

-- What `Select` makes of the answer of the cache.
abbrev pub by_answer : Candidates → String → Answer → Selected
by_answer endpoints value (failure err) = record {
  endpoint = none;
  headers = none;
  error = some err;
}
by_answer endpoints value (success none) = failed err_no_endpoint_available
by_answer endpoints value (success (some e)) = record {
  endpoint = some e;
  headers = some (value_headers value);
  error = if has e endpoints then none else some (coded err_endpoint_unavailable);
}

abbrev pub is_empty : Candidates → Bool
is_empty [] = true
is_empty (c ∷ cs) = false

module _ {C : Type 0} (ops : DirectCache C) where
  abbrev pub with_cache : Answer → Direct C → String → Option C → Go (Direct C × Selected)
  with_cache stored r value none = ok (r, failed err_cache_not_found)
  with_cache stored r value (some cache) = ops.get stored cache value >>= λ found.
      ok (record r { cache = some found.0 }, by_answer r.endpoints value found.1)

  abbrev pub with_value : Answer → Direct C → Option String → Go (Direct C × Selected)
  with_value stored r none = ok (r, failed err_no_value_available)
  with_value stored r (some value) = with_cache stored r value r.cache

  unfoldable pub select : Answer → Direct C → MatchTarget → Go (Direct C × Selected)
  select stored r target =
      let by_value = with_value stored r (lookup r.header_key target.headers) in
      if r.header_key == ""
      then ok (r, failed err_no_key_available)
      else if is_empty r.endpoints
      then ok (r, failed err_no_endpoint_available)
      else by_value

  abbrev pub update : Direct C → Candidates → Direct C
  update r endpoints = record r { endpoints = endpoints }

  abbrev pub refreshed : Answer → String → Option C → Option C
  refreshed stored value none = none
  refreshed stored value (some cache) = some (ops.refresh stored cache value)

  unfoldable pub notify_retry : Answer → Direct C → String → Direct C
  notify_retry stored r value = record r { cache = refreshed stored value r.cache }

pub select-answer :
    {C : Type 0}
    → (ops : DirectCache C) (stored answer : Answer) (r : Direct C) (c c' : C) (value : String)
      (target : MatchTarget)
    → r.cache ≡ some c
    → ops.get stored c value ≡ ok (c', answer)
    → (r.header_key == "") ≡ false
    → is_empty r.endpoints ≡ false
    → lookup r.header_key target.headers ≡ some value
    → select ops stored r target
      ≡ ok (record r { cache = some c' }, by_answer r.endpoints value answer)
unfolding select
select-answer ops stored answer r c c' value target cached found keyed filled asked =
    rw (keyed, filled, asked, cached, found) refl

-- After `NotifyRetry` of a value that the cache has, a request of that value goes to the endpoint that the
-- store had then, with the value in the headers, whatever the store has by now: without an error if the
-- endpoint is a candidate, and as unavailable if not.
pub select-notify_retry :
    (r : Direct LruCache) (l : LruCache) (value : String) (n : ℕ) (e : Endpoint) (now : Answer)
    (target : MatchTarget)
    → r.cache ≡ some l
    → lookup value l.buf ≡ some n
    → (r.header_key == "") ≡ false
    → is_empty r.endpoints ≡ false
    → lookup r.header_key target.headers ≡ some value
    → (r' : Direct LruCache) × (select lru_cache now
          (notify_retry lru_cache (success (some e)) r value)
          target
        ≡ ok (
          r',
          record {
            endpoint = some e;
            headers = some (value_headers value);
            error = if has e r.endpoints then none else some (coded err_endpoint_unavailable);
          },
        ))
unfolding select notify_retry
select-notify_retry r l value n e now target cached held keyed filled asked =
    let (l', found) = get-refresh (some e) now l value n held in
    let c = lru_cache.refresh (success (some e)) l value in
    (record r { cache = some l' }, rw (keyed, filled, asked, cached, found) refl)
