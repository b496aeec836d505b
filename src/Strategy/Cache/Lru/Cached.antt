-- ===== src/Strategy/Cache/Lru/Cached.antt =====
-- The invariant of the least-recently-used cache, and what `Get` does with an entry that it has.
use yapr.Prelude.{
  ℕ, suc, ◌<◌, String, true, List, [], ◌∷◌, some, ◌≡◌, ◌↔◌, refl, sym, ap, ◌∙◌, arith, ◌==◌, nat_eq,
  string_eq, ==_iff, ==_refl, contains, Bool-cases, inl, inr, length,
}
use yapr.Prelude.Dict.{Dict, lookup, delete, IsMap}
use yapr.Strategy.Cache.Lru.{LruCache, move_to_head}
use yapr.Strategy.Cache.Lru.Order.{without, contains-without, without_absent, IsDistinct}
use yapr.Strategy.Cache.Lru.Linked.{IsLinked, move_to_head-IsLinked}
use yapr.Strategy.Cache.Lru.Entries.{
  entries, Same, move_to_head-Same, entries_same, IsKey, entries-without, lookup-entries,
}

-- The map has the nodes of the list by their header values.
abbrev pub IsIndexed : List ℕ → LruCache → Type 0
IsIndexed xs l =
    (k : String) (n : ℕ)
    → (lookup k l.buf ≡ some n) ↔ ((contains n xs ≡ true) × ((l.cells n).header_value ≡ k))

-- The list of nodes is linked as `xs` says, the map has the same nodes, and free addresses are not in use.
abbrev pub IsCache : List ℕ → LruCache → Type 0
IsCache xs l =
    IsLinked xs l
    × IsIndexed xs l
    × IsMap l.buf
    × (length l.buf ≡ length xs)
    × ((n : ℕ) → contains n xs ≡ true → n < l.free)

pub Same-IsIndexed :
    (xs ys : List ℕ) (l l' : LruCache)
    → Same l' l
    → ((m : ℕ) → contains m ys ≡ contains m xs)
    → IsIndexed xs l
    → IsIndexed ys l'
Same-IsIndexed xs ys l l' same alike indexed k n =
    let (there, back) = indexed k n in
    let header = (same.0 n).0 in
    (
      λ found.
          let (stands, is) = there (ap (λ b. lookup k b) (sym same.1) ∙ found) in
          (alike n ∙ stands, header ∙ is),
      λ known. ap (λ b. lookup k b) same.1 ∙ back (sym (alike n) ∙ known.0, sym header ∙ known.1),
    )

pub Same-IsCache :
    (xs ys : List ℕ) (l l' : LruCache)
    → Same l' l
    → IsLinked ys l'
    → ((m : ℕ) → contains m ys ≡ contains m xs)
    → length ys ≡ length xs
    → IsCache xs l
    → IsCache ys l'
Same-IsCache xs ys l l' same linked alike size cached = (
  linked,
  Same-IsIndexed xs ys l l' same alike cached.1,
  rw same.1 cached.2,
  ap (λ (b : Dict String ℕ). length b) same.1 ∙ cached.3 ∙ sym size,
  λ n stands. rw same.3 (cached.4 n (sym (alike n) ∙ stands)),
)

pub IsCache-IsKey :
    (xs : List ℕ) (l : LruCache) (n : ℕ) → IsCache xs l → contains n xs ≡ true → IsKey l.cells xs n
IsCache-IsKey xs l n cached stands x there = elim (Bool-cases (x == n)) [
  | inl same ↦ rw ((==_iff x n).0 same) (==_refl (l.cells n).header_value ∙ sym (==_refl n))
  | inr other ↦ elim (Bool-cases ((l.cells x).header_value == (l.cells n).header_value)) [
    | inr apart ↦ apart ∙ sym other
    | inl alike ↦
        let is = (==_iff (l.cells x).header_value (l.cells n).header_value).0 alike in
        let at_x = (cached.1 (l.cells n).header_value x).1 (there, is) in
        let at_n = (cached.1 (l.cells n).header_value n).1 (stands, refl) in
        let both : some x ≡ some n = sym at_x ∙ at_n in absurd (ground (arith, both, other))
  ]
]

pub length-without :
    (n : ℕ) (xs : List ℕ)
    → IsDistinct xs
    → contains n xs ≡ true
    → suc (length (without n xs)) ≡ length xs
length-without n [] d there = absurd (ground (arith, there))
length-without n (x ∷ xs) d there = elim (Bool-cases (x == n)) [
  | inl same ↦
      let is = (==_iff x n).0 same in
      let gone = rw is at d.0 in rw (same, without_absent n xs gone) refl
  | inr other ↦ rw other (ap suc (length-without n xs d.1 (ground (arith, there, other))))
]

-- An entry that is found goes to the front.
pub found_lem :
    (xs : List ℕ) (l : LruCache) (k : String) (n : ℕ)
    → IsCache xs l
    → lookup k l.buf ≡ some n
    → IsCache (n ∷ without n xs) (move_to_head n l)
      × (entries (move_to_head n l).cells (n ∷ without n xs)
          ≡ (k, (l.cells n).endpoint) ∷ delete k (entries l.cells xs))
      × (lookup k (entries l.cells xs) ≡ some (l.cells n).endpoint)
found_lem xs l k n cached found =
    let (stands, is) = (cached.1 k n).0 found in
    let same = move_to_head-Same n l in
    let linked = move_to_head-IsLinked xs l n cached.0 stands in
    let key = IsCache-IsKey xs l n cached stands in
    (
      Same-IsCache xs (n ∷ without n xs) l (move_to_head n l) same linked
          (λ m. let split = contains-without n m xs in ground (arith, split, stands, ==_iff n m))
          (length-without n xs cached.0.2 stands) cached,
      entries_same l.cells (move_to_head n l).cells (n ∷ without n xs) (λ m there. same.0 m)
          ∙ ap (λ h. (h, (l.cells n).endpoint) ∷ entries l.cells (without n xs)) is
          ∙ ap (λ es. (k, (l.cells n).endpoint) ∷ es)
              (entries-without l.cells xs n key ∙ ap (λ h. delete h (entries l.cells xs)) is),
      ap (λ h. lookup h (entries l.cells xs)) (sym is)
          ∙ lookup-entries l.cells xs n key
          ∙ rw stands refl,
    )
