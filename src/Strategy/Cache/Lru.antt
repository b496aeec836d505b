-- ===== src/Strategy/Cache/Lru.antt =====
-- pkg/yapr/core/strategy/impl/cache/impl/lru.go: a map to the nodes of a list that is linked in both
-- directions, on a heap. A loop that goes on for ever is a `deadlock`.
pub mod Endpoints
pub mod Order
pub mod Linked
pub mod Entries
pub mod Cached
pub mod Fetched
pub mod Evicted
pub mod Resized
pub mod Refined
use yapr.Prelude.{
  ℕ, zero, suc, ◌+◌, ◌%◌, ◌^◌, String, Bool, true, false, List, [], Option, none, some, ◌==◌,
  nat_eq, string_eq, if◌then◌else◌, length, ltb,
}
use yapr.Prelude.Dict.{Dict, lookup, insert, delete}
use yapr.Endpoint.{Endpoint}
use yapr.Errcode.{Error, Result, success, failure}
use yapr.Go.{Go, ok, panic, deadlock, nil_dereference, ◌>>=◌}
use yapr.Strategy.Cache.{Answer, DirectCache}

pub record Node : Type 0 where
  pub header_value : String
  pub endpoint : Option Endpoint
  pub prev : Option ℕ
  pub next : Option ℕ

pub record LruCache : Type 0 where
  pub capacity : ℕ
  pub buf : Dict String ℕ
  pub head : Option ℕ
  pub tail : Option ℕ
  -- the heap, and the first address that is free
  pub cells : ℕ → Node
  pub free : ℕ

abbrev pub blank : Node
blank = record { header_value = ""; endpoint = none; prev = none; next = none }

-- `NewLRUBuffer` of a capacity that is not 0
abbrev pub new_lru_buffer : ℕ → LruCache
new_lru_buffer capacity = record {
  capacity = capacity;
  buf = [];
  head = none;
  tail = none;
  cells = λ n. blank;
  free = 0;
}

abbrev pub store : ℕ → Node → LruCache → LruCache
store n node l = record l { cells = λ m. if m == n then node else l.cells m }

-- `if p != nil { p.Next = next }`
abbrev pub set_next : Option ℕ → Option ℕ → LruCache → LruCache
set_next none next l = l
set_next (some p) next l = store p (record (l.cells p) { next = next }) l

abbrev pub set_prev : Option ℕ → Option ℕ → LruCache → LruCache
set_prev none prev l = l
set_prev (some p) prev l = store p (record (l.cells p) { prev = prev }) l

abbrev pub points_to : Option ℕ → ℕ → Bool
points_to none n = false
points_to (some m) n = m == n

unfoldable pub remove : ℕ → LruCache → LruCache
remove n l =
    let l₁ = set_next (l.cells n).prev (l.cells n).next l in
    let l₂ = set_prev (l₁.cells n).next (l₁.cells n).prev l₁ in
    let node = l₂.cells n in
    record l₂ {
      head = if points_to l.head n then node.next else l.head;
      tail = if points_to l.tail n then node.prev else l.tail;
    }

abbrev pub or_node : Option ℕ → ℕ → Option ℕ
or_node none n = some n
or_node (some m) n = some m

-- the node put in front
abbrev pub pushed : ℕ → LruCache → LruCache
pushed n l =
    let l₁ = store n (record (l.cells n) { prev = none; next = l.head }) l in
    let l₂ = set_prev l.head (some n) l₁ in record l₂ { head = some n; tail = or_node l₂.tail n }

unfoldable pub move_to_head : ℕ → LruCache → LruCache
move_to_head n l = let moved = pushed n (remove n l) in if points_to l.head n then l else moved

abbrev pub dropped_tail : LruCache → Option ℕ → Go LruCache
dropped_tail l none = panic nil_dereference
dropped_tail l (some t) = ok (remove t (record l { buf = delete (l.cells t).header_value l.buf }))

-- The loop of `resize`, `rounds` times at most: an entry is deleted in each.
unfoldable pub resize_loop : ℕ → LruCache → Go LruCache
resize_loop zero l = if ltb l.capacity (length l.buf % 2 ^ 32) then deadlock else ok l
resize_loop (suc rounds) l =
    let smaller = (dropped_tail l l.tail >>= λ l'. resize_loop rounds l') in
    if ltb l.capacity (length l.buf % 2 ^ 32) then smaller else ok l

unfoldable pub resize : LruCache → Go LruCache
resize l = resize_loop (length l.buf) l

abbrev pub found_node : LruCache → ℕ → Go (LruCache × Answer)
found_node l n = let l' = move_to_head n l in ok (l', success (l'.cells n).endpoint)

abbrev pub fetched : LruCache → String → Answer → Go (LruCache × Answer)
fetched l value (failure err) = ok (l, failure err)
fetched l value (success e) =
    let n = l.free in
    let node : Node = record { header_value = value; endpoint = e; prev = none; next = none } in
    let kept = record (store n node l) { buf = insert value n l.buf; free = n + 1 } in
    resize (move_to_head n kept) >>= λ l'. ok (l', success e)

abbrev pub get_node : Answer → LruCache → String → Option ℕ → Go (LruCache × Answer)
get_node stored l value (some n) = found_node l n
get_node stored l value none = fetched l value stored

unfoldable pub get : Answer → LruCache → String → Go (LruCache × Answer)
get stored l value = get_node stored l value (lookup value l.buf)

unfoldable pub clear : LruCache → LruCache
clear l = record l { buf = []; head = none; tail = none }

abbrev pub refreshed_node : Answer → LruCache → String → ℕ → LruCache
refreshed_node (success e) l value n = store n (record (l.cells n) { endpoint = e }) l
refreshed_node (failure err) l value n =
    let l' = store n (record (l.cells n) { endpoint = none }) l in
    remove n (record l' { buf = delete value l'.buf })

abbrev pub refreshed : Answer → LruCache → String → Option ℕ → LruCache
refreshed stored l value none = l
refreshed stored l value (some n) = refreshed_node stored l value n

unfoldable pub refresh : Answer → LruCache → String → LruCache
refresh stored l value = refreshed stored l value (lookup value l.buf)

abbrev pub lru_cache : DirectCache LruCache
lru_cache = record { get = get; refresh = refresh; clear = clear }
