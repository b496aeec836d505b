-- ===== src/Strategy/Cache/Lru/Linked.antt =====
-- The list of nodes of the least-recently-used cache: a heap that is linked as a list of addresses says.
use mathlib.Core.Path.{subst}
use yapr.Prelude.{
  ℕ, true, false, List, [], ◌∷◌, Option, none, some, ◌≡◌, refl, sym, arith, ◌==◌, nat_eq, ==_iff,
  ==_refl, if◌then◌else◌, contains, Bool-cases, inl, inr, ◌∙◌, ap,
}
use yapr.Strategy.Cache.Lru.{
  LruCache, store, set_next, set_prev, points_to, remove, or_node, pushed, move_to_head,
}
use yapr.Strategy.Cache.Lru.Order.{
  head_of, last_of, before, after, without, IsDistinct, contains-without, without-IsDistinct,
  head_of-without, after-without, before-without, before-after, last_of-without, head_points,
  before_head, without_absent,
}

abbrev pub IsLinked : List ℕ → LruCache → Type 0
IsLinked xs l =
    (l.head ≡ head_of xs)
    × (l.tail ≡ last_of none xs)
    × IsDistinct xs
    × ((m : ℕ)
        → contains m xs ≡ true
        → ((l.cells m).prev ≡ before none xs m) × ((l.cells m).next ≡ after xs m))

set_next_lem :
    (p v : Option ℕ) (l : LruCache) (m : ℕ)
    → (((set_next p v l).cells m).next ≡ (if points_to p m then v else (l.cells m).next))
      × (((set_next p v l).cells m).prev ≡ (l.cells m).prev)
set_next_lem none v l m = (refl, refl)
set_next_lem (some p) v l m = elim (Bool-cases (m == p)) [
  | inl same ↦
      let is = (==_iff m p).0 same in
      let turned : (p == m) ≡ true = ground (arith, ==_iff p m, is) in
      rw (same, turned) (refl, ap (λ k. (l.cells k).prev) (sym is))
  | inr other ↦
      let turned : (p == m) ≡ false = ground (arith, ==_iff p m, ==_iff m p, other) in
      rw (other, turned) (refl, refl)
]

set_prev_lem :
    (p v : Option ℕ) (l : LruCache) (m : ℕ)
    → (((set_prev p v l).cells m).prev ≡ (if points_to p m then v else (l.cells m).prev))
      × (((set_prev p v l).cells m).next ≡ (l.cells m).next)
set_prev_lem none v l m = (refl, refl)
set_prev_lem (some p) v l m = elim (Bool-cases (m == p)) [
  | inl same ↦
      let is = (==_iff m p).0 same in
      let turned : (p == m) ≡ true = ground (arith, ==_iff p m, is) in
      rw (same, turned) (refl, ap (λ k. (l.cells k).next) (sym is))
  | inr other ↦
      let turned : (p == m) ≡ false = ground (arith, ==_iff p m, ==_iff m p, other) in
      rw (other, turned) (refl, refl)
]

after_self : (xs : List ℕ) (n : ℕ) → IsDistinct xs → points_to (after xs n) n ≡ false
after_self [] n d = refl
after_self (x ∷ xs) n d = elim (Bool-cases (x == n)) [
  | inl same ↦
      let is = (==_iff x n).0 same in let gone = rw is at d.0 in rw same (head_points xs n gone)
  | inr other ↦ rw other (after_self xs n d.1)
]

before_self : (xs : List ℕ) (n : ℕ) → IsDistinct xs → points_to (before none xs n) n ≡ false
before_self xs n d = before-after none xs n n refl d ∙ after_self xs n d

module _ (xs : List ℕ) (l : LruCache) (linked : IsLinked xs l) (n : ℕ)
    (stands : contains n xs ≡ true) where
  -- the heap after the first assignment of `remove`
  abbrev next_set : LruCache
  next_set = set_next (l.cells n).prev (l.cells n).next l

  abbrev both_set : LruCache
  both_set = set_prev (next_set.cells n).next (next_set.cells n).prev next_set

  own_prev : (next_set.cells n).prev ≡ before none xs n
  own_prev = (set_next_lem (l.cells n).prev (l.cells n).next l n).1 ∙ (linked.3 n stands).0

  own_next : (next_set.cells n).next ≡ after xs n
  own_next =
      let away : points_to (l.cells n).prev n ≡ false =
        rw ((linked.3 n stands).0) (before_self xs n linked.2) in
      (set_next_lem (l.cells n).prev (l.cells n).next l n).0 ∙ rw away ((linked.3 n stands).1)

  left_next : (both_set.cells n).next ≡ after xs n
  left_next = (set_prev_lem (next_set.cells n).next (next_set.cells n).prev next_set n).1 ∙ own_next

  left_prev : (both_set.cells n).prev ≡ before none xs n
  left_prev =
      (set_prev_lem (next_set.cells n).next (next_set.cells n).prev next_set n).0
      ∙ rw (own_next, after_self xs n linked.2) own_prev

  other_cell :
      (m : ℕ)
      → contains m xs ≡ true
      → (m == n) ≡ false
      → ((both_set.cells m).prev ≡ before none (without n xs) m)
        × ((both_set.cells m).next ≡ after (without n xs) m)
  other_cell m there differ =
      let b = set_prev_lem (next_set.cells n).next (next_set.cells n).prev next_set m in
      let a = set_next_lem (l.cells n).prev (l.cells n).next l m in
      let (prev_m, next_m) = linked.3 m there in
      let was = linked.3 n stands in
      let turned = before-after none xs n m refl linked.2 in
      let turned' = before-after none xs m n refl linked.2 in
      let shorter = before-without none n m xs refl linked.2 differ in
      let shorter' = after-without n m xs linked.2 differ in
      (
        ground (arith, b.0, a.1, prev_m, own_next, own_prev, turned, shorter),
        ground (arith, b.1, a.0, next_m, was.0, was.1, turned', shorter'),
      )

  pub remove-IsLinked : IsLinked (without n xs) (remove n l)
  unfolding remove
  remove-IsLinked =
      let first = head_of-without n xs linked.2 in
      let last = last_of-without none n xs refl linked.2 in
      (
        ground (arith, first, linked.0, left_next),
        ground (arith, last, linked.1, left_prev),
        without-IsDistinct n xs linked.2,
        λ m there.
            let split = contains-without n m xs in
            other_cell m (ground (arith, split, there))
              (ground (arith, split, there, ==_iff m n, ==_iff n m)),
      )

or_node-last_of : (p n : ℕ) (xs : List ℕ) → or_node (last_of (some p) xs) n ≡ last_of (some p) xs
or_node-last_of p n [] = refl
or_node-last_of p n (x ∷ xs) = or_node-last_of x n xs

or_node-last : (n : ℕ) (xs : List ℕ) → or_node (last_of none xs) n ≡ last_of (some n) xs
or_node-last n [] = refl
or_node-last n (x ∷ xs) = or_node-last_of x n xs

set_prev_tail : (p v : Option ℕ) (l : LruCache) → (set_prev p v l).tail ≡ l.tail
set_prev_tail none v l = refl
set_prev_tail (some p) v l = refl

pub pushed-IsLinked :
    (ys : List ℕ) (l : LruCache) (n : ℕ)
    → IsLinked ys l
    → contains n ys ≡ false
    → IsLinked (n ∷ ys) (pushed n l)
pushed-IsLinked ys l n linked absent = (
  refl,
  ap (λ t. or_node t n) (set_prev_tail l.head (some n) l₁ ∙ linked.1) ∙ or_node-last n ys,
  (absent, linked.2),
  cell,
)
  where
    l₁ : LruCache
    l₁ = store n (record (l.cells n) { prev = none; next = l.head }) l

    cell :
        (m : ℕ)
        → contains m (n ∷ ys) ≡ true
        → (((set_prev l.head (some n) l₁).cells m).prev ≡ before none (n ∷ ys) m)
          × (((set_prev l.head (some n) l₁).cells m).next ≡ after (n ∷ ys) m)
    cell m there =
        let (prev_m, next_m) = set_prev_lem l.head (some n) l₁ m in
        elim (Bool-cases (n == m)) [
          | inl same ↦
              let is : m ≡ n = sym ((==_iff n m).0 same) in
              let turned : (m == n) ≡ true = (==_iff m n).1 is in
              let first : points_to l.head m ≡ false =
                rw (linked.0, is) (head_points ys n absent) in
              (prev_m ∙ rw (first, turned, same) refl, next_m ∙ rw (turned, same) linked.0)
          | inr other ↦
              let turned : (m == n) ≡ false = ground (arith, ==_iff n m, ==_iff m n, other) in
              let inside : contains m ys ≡ true = ground (arith, there, other) in
              let (prev_ys, next_ys) = linked.3 m inside in
              (
                prev_m
                    ∙ rw (turned, other, linked.0, prev_ys) (sym (before_head none (some n) ys m)),
                next_m ∙ rw (turned, other) next_ys,
              )
        ]

without_first :
    (n : ℕ) (xs : List ℕ) → IsDistinct xs → points_to (head_of xs) n ≡ true → n ∷ without n xs ≡ xs
without_first n [] d first = absurd (ground (arith, first))
without_first n (x ∷ xs) d first =
    let is = (==_iff x n).0 first in
    let gone = rw is at d.0 in
    let kept = without_absent n xs gone in rw (first, kept) (ap (λ k. k ∷ xs) (sym is))

-- Let the nodes of the cache be linked as a list of addresses says, from the head to the tail. Then
-- `moveToHead` of one of them leaves them linked with that one in front, and the others in their order.
pub move_to_head-IsLinked :
    (xs : List ℕ) (l : LruCache) (n : ℕ)
    → IsLinked xs l
    → contains n xs ≡ true
    → IsLinked (n ∷ without n xs) (move_to_head n l)
unfolding move_to_head
move_to_head-IsLinked xs l n linked stands = elim (Bool-cases (points_to l.head n)) [
  | inl first ↦
      let same = without_first n xs linked.2 (rw linked.0 at first) in
      rw first (subst (λ ys. IsLinked ys l) (sym same) linked)
  | inr later ↦
      let split = contains-without n n xs in
      rw later (
        pushed-IsLinked (without n xs) (remove n l) n (remove-IsLinked xs l linked n stands)
          (ground (arith, split, ==_refl n)))
]
