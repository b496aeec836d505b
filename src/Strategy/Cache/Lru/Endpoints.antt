-- ===== src/Strategy/Cache/Lru/Endpoints.antt =====
-- What the least-recently-used cache returns after a refresh.
use yapr.Prelude.{
  ℕ, String, Option, none, some, ◌≡◌, refl, sym, ap, ◌∙◌, ◌==◌, nat_eq, string_eq, ==_refl, ==_iff,
  Bool-cases, inl, inr,
}
use yapr.Prelude.Dict.{lookup}
use yapr.Endpoint.{Endpoint}
use yapr.Errcode.{success}
use yapr.Go.{ok}
use yapr.Strategy.Cache.{Answer}
use yapr.Strategy.Cache.Lru.{
  Node, LruCache, store, set_next, set_prev, points_to, remove, move_to_head, get, refresh,
}

-- Two heaps with the same endpoints.
abbrev SameEndpoints : LruCache → LruCache → Type 0
SameEndpoints l' l = (m : ℕ) → (l'.cells m).endpoint ≡ (l.cells m).endpoint

store-SameEndpoints :
    (n : ℕ) (node : Node) (l : LruCache)
    → node.endpoint ≡ (l.cells n).endpoint
    → SameEndpoints (store n node l) l
store-SameEndpoints n node l same m = elim (Bool-cases (m == n)) [
  | inl here ↦ rw here (same ∙ ap (λ k. (l.cells k).endpoint) (sym ((==_iff m n).0 here)))
  | inr away ↦ rw away refl
]

set_next-SameEndpoints : (p next : Option ℕ) (l : LruCache) → SameEndpoints (set_next p next l) l
set_next-SameEndpoints none next l m = refl
set_next-SameEndpoints (some p) next l m = store-SameEndpoints p _ l refl m

set_prev-SameEndpoints : (p prev : Option ℕ) (l : LruCache) → SameEndpoints (set_prev p prev l) l
set_prev-SameEndpoints none prev l m = refl
set_prev-SameEndpoints (some p) prev l m = store-SameEndpoints p _ l refl m

remove-SameEndpoints : (n : ℕ) (l : LruCache) → SameEndpoints (remove n l) l
unfolding remove
remove-SameEndpoints n l m =
    let l₁ = set_next (l.cells n).prev (l.cells n).next l in
    set_prev-SameEndpoints (l₁.cells n).next (l₁.cells n).prev l₁ m
    ∙ set_next-SameEndpoints (l.cells n).prev (l.cells n).next l m

move_to_head-SameEndpoints : (n : ℕ) (l : LruCache) → SameEndpoints (move_to_head n l) l
unfolding move_to_head
move_to_head-SameEndpoints n l m = elim (Bool-cases (points_to l.head n)) [
  | inl first ↦ rw first refl
  | inr later ↦
      let l₁ = remove n l in
      let l₂ = store n (record (l₁.cells n) { prev = none; next = l₁.head }) l₁ in
      rw later (
        set_prev-SameEndpoints l₁.head (some n) l₂ m
        ∙ store-SameEndpoints n _ l₁ refl m
        ∙ remove-SameEndpoints n l m)
]

-- An entry that is refreshed is returned as the store had it then, whatever the store has by now.
pub get-refresh :
    (e : Option Endpoint) (now : Answer) (l : LruCache) (value : String) (n : ℕ)
    → lookup value l.buf ≡ some n
    → (l' : LruCache) × (get now (refresh (success e) l value) value ≡ ok (l', success e))
unfolding get refresh
get-refresh e now l value n held =
    let l₁ = store n (record (l.cells n) { endpoint = e }) l in
    let same = move_to_head-SameEndpoints n l₁ n in
    let written : (l₁.cells n).endpoint ≡ e = rw (==_refl n) refl in
    let found : ((move_to_head n l₁).cells n).endpoint ≡ e = same ∙ written in
    (move_to_head n l₁, rw (held, held) (ap (λ x. ok (move_to_head n l₁, success x)) found))
