-- ===== src/Strategy/Cache/Lru/Refined.antt =====
-- The least-recently-used cache as a list of entries, the latest in front.
use yapr.Prelude.{
  ℕ, ◌+◌, ◌^◌, ◌≤◌, ◌<◌, String, true, false, List, [], ◌∷◌, Option, none, some, ◌≡◌, refl, sym, ap,
  ◌∙◌, arith, ◌==◌, nat_eq, string_eq, ==_iff, ==_refl, contains, Bool-cases, Option-cases, inl,
  inr, length,
}
use yapr.Prelude.Dict.{lookup, delete}
use yapr.Endpoint.{Endpoint}
use yapr.Errcode.{success, failure}
use yapr.Go.{Go, ok}
use yapr.Strategy.Cache.{Answer}
use yapr.Strategy.Cache.Lru.{Node, LruCache, new_lru_buffer, move_to_head, found_node, fetched, get}
use yapr.Strategy.Cache.Lru.Order.{without}
use yapr.Strategy.Cache.Lru.Entries.{Entries, entries, move_to_head-Same}
use yapr.Strategy.Cache.Lru.Cached.{IsCache, found_lem, length-without}
use yapr.Strategy.Cache.Lru.Fetched.{entered, move_to_head-InFront}
use yapr.Strategy.Cache.Lru.Resized.{keep_first, resize-Trimmed}

-- `Get` on the list: an entry that is there moves to the front; one that the store has is put in front,
-- and the last one goes where the capacity is passed.
abbrev pub recall : ℕ → Answer → Entries → String → Option (Option Endpoint) → Entries × Answer
recall capacity stored es k (some e) = ((k, e) ∷ delete k es, success e)
recall capacity (failure err) es k none = (es, failure err)
recall capacity (success e) es k none = (keep_first capacity ((k, e) ∷ es), success e)

abbrev pub recency_get : ℕ → Answer → Entries → String → Entries × Answer
recency_get capacity stored es k = recall capacity stored es k (lookup k es)

-- The cache has these entries, from the head to the tail, and no more than its capacity.
abbrev pub Represents : Entries → LruCache → Type 0
Represents es l =
    (xs : List ℕ) × IsCache xs l
    × (entries l.cells xs ≡ es)
    × (length xs ≤ l.capacity)
    × (l.capacity + 1 < 2 ^ 32)

pub new_lru_buffer-Represents :
    (capacity : ℕ) → capacity + 1 < 2 ^ 32 → Represents [] (new_lru_buffer capacity)
unfolding lookup
new_lru_buffer-Represents capacity room = (
  [],
  (
    (refl, refl, tt, λ m there. absurd (ground (arith, there))),
    λ k n. (λ found. absurd (ground (arith, found)), λ known. absurd (ground (arith, known))),
    tt,
    refl,
    λ n there. absurd (ground (arith, there)),
  ),
  refl,
  omega arith,
  room,
)

lookup-absent :
    (c : ℕ → Node) (xs : List ℕ) (k : String)
    → ((x : ℕ) → contains x xs ≡ true → ((c x).header_value == k) ≡ false)
    → lookup k (entries c xs) ≡ none
unfolding lookup
lookup-absent c [] k h = refl
lookup-absent c (x ∷ xs) k h =
    let this = h x (ground (arith, ==_refl x)) in
    rw this (lookup-absent c xs k (λ m there. h m (ground (arith, there))))

-- What a call gives, beside what it gives on the list.
abbrev pub Agrees : LruCache → Entries × Answer → Go (LruCache × Answer) → Type 0
Agrees l expected r =
    (l' : LruCache) × (r ≡ ok (l', expected.1))
    × Represents expected.0 l'
    × (l'.capacity ≡ l.capacity)

found_node-Agrees :
    (l : LruCache) (es : Entries) (stored : Answer) (k : String) (n : ℕ)
    → Represents es l
    → lookup k l.buf ≡ some n
    → Agrees l (recency_get l.capacity stored es k) (found_node l n)
found_node-Agrees l es stored k n (xs, cached, is, fits, room) found =
    let (cached', moved, held) = found_lem xs l k n cached found in
    let same = move_to_head-Same n l in
    let l' = move_to_head n l in
    let known : lookup k es ≡ some (l.cells n).endpoint =
      ap (λ es'. lookup k es') (sym is) ∙ held in
    let size = length-without n xs cached.0.2 ((cached.1 k n).0 found).0 in
    let capacity : l'.capacity ≡ l.capacity = same.2 in
    rw known (
      l',
      ap (λ e. ok (l', success e)) (same.0 n).1,
      (
        n ∷ without n xs,
        cached',
        moved ∙ ap (λ es'. (k, (l.cells n).endpoint) ∷ delete k es') is,
        omega arith,
        omega arith,
      ),
      capacity,
    )

fetched-Agrees :
    (l : LruCache) (es : Entries) (stored : Answer) (k : String)
    → Represents es l
    → lookup k l.buf ≡ none
    → Agrees l (recall l.capacity stored es k none) (fetched l k stored)
fetched-Agrees l es (failure err) k represents missing = (l, refl, represents, refl)
fetched-Agrees l es (success e) k (xs, cached, is, fits, room) missing =
    let l₁ = move_to_head l.free (entered xs l cached k e missing) in
    let (cached₁, entries₁, capacity₁) = move_to_head-InFront xs l cached k e missing in
    let (zs, l', resized, cached', entries', fits', capacity') =
      resize-Trimmed (l.free ∷ xs) l₁ cached₁ (omega arith) (omega arith) in
    (
      l',
      rw resized refl,
      (
        zs,
        cached',
        entries'
            ∙ ap (λ c. keep_first c (entries l₁.cells (l.free ∷ xs))) capacity₁
            ∙ ap (λ es'. keep_first l.capacity es') (entries₁ ∙ ap (λ es'. (k, e) ∷ es') is),
        omega arith,
        omega arith,
      ),
      capacity' ∙ capacity₁,
    )

-- Let a cache have some entries, no more than its capacity, which is below 2 ^ 32 - 1. Then `Get` returns,
-- with the answer and the entries of `recency_get`, and again no more than the capacity.
pub get-Agrees :
    (l : LruCache) (es : Entries) (stored : Answer) (k : String)
    → Represents es l
    → Agrees l (recency_get l.capacity stored es k) (get stored l k)
unfolding get
get-Agrees l es stored k represents = elim (Option-cases (lookup k l.buf)) [
  | inl missing ↦
      let (xs, cached, is, fits, room) = represents in
      let unknown : lookup k es ≡ none =
        ap (λ es'. lookup k es') (sym is)
        ∙ lookup-absent l.cells xs k (λ x there. absent xs cached missing x there) in
      rw (missing, unknown) (fetched-Agrees l es stored k represents missing)
  | inr (n, found) ↦ rw found (found_node-Agrees l es stored k n represents found)
]
  where
    absent :
        (xs : List ℕ)
        → IsCache xs l
        → lookup k l.buf ≡ none
        → (x : ℕ) → contains x xs ≡ true
        → ((l.cells x).header_value == k) ≡ false
    absent xs cached missing x there = elim (Bool-cases ((l.cells x).header_value == k)) [
      | inr apart ↦ apart
      | inl same ↦
          let found = (cached.1 k x).1 (there, (==_iff (l.cells x).header_value k).0 same) in
          absurd (ground (arith, missing, found))
    ]
