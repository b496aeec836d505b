-- ===== src/Strategy/Cache/Lru/Entries.antt =====
-- The entries of the least-recently-used cache, from the head to the tail, and the calls that only move
-- pointers.
use yapr.Prelude.{
  ℕ, String, true, List, [], ◌∷◌, Option, none, some, ◌≡◌, refl, sym, ap, ◌∙◌, arith, ◌==◌, nat_eq,
  string_eq, ==_iff, ==_refl, if◌then◌else◌, contains, Bool-cases, inl, inr,
}
use yapr.Prelude.Dict.{Dict, lookup, delete}
use yapr.Endpoint.{Endpoint}
use yapr.Strategy.Cache.Lru.{
  Node, LruCache, store, set_next, set_prev, points_to, remove, pushed, move_to_head,
}
use yapr.Strategy.Cache.Lru.Order.{without}

abbrev pub Entries : Type 0
Entries = Dict String (Option Endpoint)

abbrev pub entries : (ℕ → Node) → List ℕ → Entries
entries c [] = []
entries c (x ∷ xs) = ((c x).header_value, (c x).endpoint) ∷ entries c xs

-- Nothing but pointers differs.
abbrev pub Same : LruCache → LruCache → Type 0
Same l' l =
    ((m : ℕ)
      → ((l'.cells m).header_value ≡ (l.cells m).header_value)
        × ((l'.cells m).endpoint ≡ (l.cells m).endpoint))
    × (l'.buf ≡ l.buf)
    × (l'.capacity ≡ l.capacity)
    × (l'.free ≡ l.free)

trans-Same : (a b c : LruCache) → Same a b → Same b c → Same a c
trans-Same a b c (p, q, r, s) (p', q', r', s') =
    (λ m. ((p m).0 ∙ (p' m).0, (p m).1 ∙ (p' m).1), q ∙ q', r ∙ r', s ∙ s')

pub store-Same :
    (n : ℕ) (node : Node) (l : LruCache)
    → node.header_value ≡ (l.cells n).header_value
    → node.endpoint ≡ (l.cells n).endpoint
    → Same (store n node l) l
store-Same n node l h e = (cell, refl, refl, refl)
  where
    cell :
        (m : ℕ)
        → (((store n node l).cells m).header_value ≡ (l.cells m).header_value)
          × (((store n node l).cells m).endpoint ≡ (l.cells m).endpoint)
    cell m = elim (Bool-cases (m == n)) [
      | inl same ↦
          let is = sym ((==_iff m n).0 same) in
          rw same (h ∙ ap (λ k. (l.cells k).header_value) is, e ∙ ap (λ k. (l.cells k).endpoint) is)
      | inr other ↦ rw other (refl, refl)
    ]

set_next-Same : (p v : Option ℕ) (l : LruCache) → Same (set_next p v l) l
set_next-Same none v l = (λ m. (refl, refl), refl, refl, refl)
set_next-Same (some p) v l = store-Same p _ l refl refl

set_prev-Same : (p v : Option ℕ) (l : LruCache) → Same (set_prev p v l) l
set_prev-Same none v l = (λ m. (refl, refl), refl, refl, refl)
set_prev-Same (some p) v l = store-Same p _ l refl refl

pub remove-Same : (n : ℕ) (l : LruCache) → Same (remove n l) l
unfolding remove
remove-Same n l =
    let l₁ = set_next (l.cells n).prev (l.cells n).next l in
    let l₂ = set_prev (l₁.cells n).next (l₁.cells n).prev l₁ in
    let same =
      trans-Same l₂ l₁ l (set_prev-Same (l₁.cells n).next (l₁.cells n).prev l₁)
        (set_next-Same (l.cells n).prev (l.cells n).next l) in
    (same.0, same.1, same.2, same.3)

pub pushed-Same : (n : ℕ) (l : LruCache) → Same (pushed n l) l
pushed-Same n l =
    let l₁ = store n (record (l.cells n) { prev = none; next = l.head }) l in
    let l₂ = set_prev l.head (some n) l₁ in
    let same = trans-Same l₂ l₁ l (set_prev-Same l.head (some n) l₁) (store-Same n _ l refl refl) in
    (same.0, same.1, same.2, same.3)

pub move_to_head-Same : (n : ℕ) (l : LruCache) → Same (move_to_head n l) l
unfolding move_to_head
move_to_head-Same n l = elim (Bool-cases (points_to l.head n)) [
  | inl first ↦ rw first (λ m. (refl, refl), refl, refl, refl)
  | inr later ↦ rw later (
      trans-Same (pushed n (remove n l)) (remove n l) l (pushed-Same n (remove n l))
        (remove-Same n l))
]

pub entries_same :
    (c c' : ℕ → Node) (xs : List ℕ)
    → ((m : ℕ)
        → contains m xs ≡ true
        → ((c' m).header_value ≡ (c m).header_value) × ((c' m).endpoint ≡ (c m).endpoint))
    → entries c' xs ≡ entries c xs
entries_same c c' [] same = refl
entries_same c c' (x ∷ xs) same =
    let (h, e) = same x (ground (arith, ==_refl x)) in
    let rest = entries_same c c' xs (λ m there. same m (ground (arith, there))) in
    rw (h, e, rest) refl

-- The header values of two nodes of the list are equal exactly if the nodes are.
abbrev pub IsKey : (ℕ → Node) → List ℕ → ℕ → Type 0
IsKey c xs n =
    (x : ℕ) → contains x xs ≡ true → ((c x).header_value == (c n).header_value) ≡ (x == n)

pub entries-without :
    (c : ℕ → Node) (xs : List ℕ) (n : ℕ)
    → IsKey c xs n
    → entries c (without n xs) ≡ delete (c n).header_value (entries c xs)
unfolding delete
entries-without c [] n key = refl
entries-without c (x ∷ xs) n key =
    let rest = entries-without c xs n (λ m there. key m (ground (arith, there))) in
    let this = key x (ground (arith, ==_refl x)) in
    elim (Bool-cases (x == n)) [
      | inl same ↦ rw (this, same) rest
      | inr other ↦ rw (this, other, rest) refl
    ]

pub lookup-entries :
    (c : ℕ → Node) (xs : List ℕ) (n : ℕ)
    → IsKey c xs n
    → lookup (c n).header_value (entries c xs)
      ≡ (if contains n xs then some (c n).endpoint else none)
unfolding lookup
lookup-entries c [] n key = refl
lookup-entries c (x ∷ xs) n key =
    let rest = lookup-entries c xs n (λ m there. key m (ground (arith, there))) in
    let this = key x (ground (arith, ==_refl x)) in
    elim (Bool-cases (x == n)) [
      | inl same ↦ rw (this, same) (ap (λ k. some (c k).endpoint) ((==_iff x n).0 same))
      | inr other ↦ rw (this, other) rest
    ]
