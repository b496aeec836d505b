-- ===== src/Sdk/Client/Stale.antt =====
-- A client of the strategy `direct` whose cache has the endpoint that a route has left:
-- pkg/yapr/core/sdk/client with pkg/yapr/core/strategy/impl/direct.go.
use yapr.Prelude.{
  ℕ, String, true, false, [], Option, none, some, ◌≡◌, refl, ap, ◌∙◌, ◌==◌, string_eq, nat_eq,
}
use yapr.Prelude.Dict.{Dict, lookup, insert, has}
use yapr.Endpoint.{Endpoint, endpoint_eq}
use yapr.Errcode.{Error, ErrWithCode, success}
use yapr.Go.{Go, ok, ◌>>=◌}
use yapr.Types.{MatchTarget}
use yapr.Strategy.Cache.{Answer}
use yapr.Strategy.Cache.Lru.{LruCache, lru_cache, get, move_to_head}
use yapr.Strategy.Cache.Lru.Entries.{move_to_head-Same}
use yapr.Strategy.Direct as Di
use yapr.Sdk.Client.{Process, field, if_wrong_endpoint, invoke, invoke_loop}

-- The strategy's cache is told, with what the store has.
abbrev pub telling : Answer → Process (Di.Direct LruCache)
telling stored = record {
  sleep = λ r ms. r;
  get_selector = λ r name. (r, none);
  notify_retry = λ r name value. ok (Di.notify_retry lru_cache stored r value);
}

abbrev pub sent :
    (Endpoint → Dict String String → Option Error)
    → Dict String String
    → Option Endpoint
    → Option Error
    → Option Error
sent serve headers endpoint (some err) = some err
sent serve headers none none = none
sent serve headers (some e) none = serve e headers

-- A call goes to the endpoint that the strategy selects.
abbrev pub calling :
    Answer
    → (Endpoint → Dict String String → Option Error)
    → MatchTarget
    → Di.Direct LruCache
    → Dict String String
    → Go (Di.Direct LruCache × Option Error)
calling stored serve target r headers = Di.select lru_cache stored r target >>= λ found.
    ok (found.0, sent serve headers found.1.endpoint found.1.error)

hit_lem :
    (stored : Answer) (l : LruCache) (value : String) (n : ℕ) (old : Endpoint)
    → lookup value l.buf ≡ some n
    → (l.cells n).endpoint ≡ some old
    → get stored l value ≡ ok (move_to_head n l, success (some old))
unfolding get
hit_lem stored l value n old held is =
    let same = move_to_head-Same n l in
    rw held (ap (λ x. ok (move_to_head n l, success x)) ((same.0 n).1 ∙ is))

-- Where the cache has an endpoint for the value of a request, the server there refuses it as sent to a
-- wrong endpoint, and the store has a new endpoint that is a candidate and answers without an error, the
-- call under `invoke` ends without an error.
pub invoke_stale :
    (from_grpc : Error → Option ErrWithCode) (serve : Endpoint → Dict String String → Option Error)
    (target : MatchTarget) (r : Di.Direct LruCache) (l : LruCache) (value : String) (n : ℕ)
    (old new : Endpoint) (err : Error) (e : ErrWithCode)
    → r.cache ≡ some l
    → lookup value l.buf ≡ some n
    → (l.cells n).endpoint ≡ some old
    → (r.header_key == "") ≡ false
    → Di.is_empty r.endpoints ≡ false
    → lookup r.header_key target.headers ≡ some value
    → has old r.endpoints ≡ true
    → has new r.endpoints ≡ true
    → serve old [] ≡ some err
    → if_wrong_endpoint (from_grpc err) ≡ some e
    → field e "headerValue" ≡ value
    → serve new (insert "yapr-last-endpoint" (field e "endpoint") []) ≡ none
    → (r' : Di.Direct LruCache) × (invoke
          (telling (success (some new)))
          from_grpc
          (calling (success (some new)) serve target)
          r
        ≡ ok (r', none))
unfolding invoke invoke_loop
invoke_stale from_grpc serve target r l value n old new err e cached held has_old keyed filled asked
      known known' refused wrong valued served =
    let stored : Answer = success (some new) in
    let l₁ = move_to_head n l in
    let same = move_to_head-Same n l in
    let r₁ = record r { cache = some l₁ } in
    let hit : get stored l value ≡ ok (l₁, success (some old)) =
      hit_lem stored l value n old held has_old in
    let first : calling stored serve target r [] ≡ ok (r₁, some err) =
      rw
        (
          Di.select-answer lru_cache stored (success (some old)) r l l₁ value target cached hit
              keyed filled asked,
          known,
          refused,
        )
        refl in
    let held₁ : lookup value l₁.buf ≡ some n = ap (λ b. lookup value b) same.1 ∙ held in
    let (r₂, again) =
      Di.select-notify_retry r₁ l₁ value n new stored target refl held₁ keyed filled asked in
    (r₂, rw (first, wrong, valued, again, known', served) refl)
