-- ===== src/Strategy/Cache/Lru/Fetched.antt =====
-- What `Get` of the least-recently-used cache does with an entry that it has not, before `resize`.
use mathlib.Core.Path.{subst}
use yapr.Prelude.{
  ℕ, suc, ◌+◌, ◌<◌, String, true, false, List, [], ◌∷◌, Option, none, some, ◌≡◌, refl, sym, ap, ◌∙◌,
  arith, ◌==◌, nat_eq, string_eq, ==_iff, ==_refl, if◌then◌else◌, contains, Bool-cases, inl, inr,
  length,
}
use yapr.Prelude.Dict.{Dict, lookup, insert, lookup-insert, insert-IsMap}
use yapr.Endpoint.{Endpoint}
use yapr.Strategy.Cache.Lru.{Node, LruCache, store, points_to, remove, pushed, move_to_head}
use yapr.Strategy.Cache.Lru.Order.{head_points, last_points}
use yapr.Strategy.Cache.Lru.Linked.{IsLinked, pushed-IsLinked}
use yapr.Strategy.Cache.Lru.Entries.{entries, pushed-Same, entries_same}
use yapr.Strategy.Cache.Lru.Cached.{IsIndexed, IsCache, Same-IsIndexed}

length-insert :
    (k : String) (n : ℕ) (m : Dict String ℕ)
    → lookup k m ≡ none
    → length (insert k n m) ≡ suc (length m)
unfolding lookup insert
length-insert k n [] h = refl
length-insert k n ((j, v) ∷ m) h = ground (arith, length-insert k n m)

-- A node outside the list is removed without a change.
remove_outside :
    (l : LruCache) (n : ℕ)
    → (l.cells n).prev ≡ none
    → (l.cells n).next ≡ none
    → points_to l.head n ≡ false
    → points_to l.tail n ≡ false
    → remove n l ≡ l
unfolding remove
remove_outside l n p q h t = rw (p, q, h, t) refl

module _ (xs : List ℕ) (l : LruCache) (cached : IsCache xs l) (k : String) (e : Option Endpoint)
    (missing : lookup k l.buf ≡ none) where
  -- the cache with the new node on the heap and in the map
  abbrev pub entered : LruCache
  entered =
      record (store l.free (record { header_value = k; endpoint = e; prev = none; next = none })
        l) { buf = insert k l.free l.buf; free = l.free + 1 }

  unused : contains l.free xs ≡ false
  unused = elim (Bool-cases (contains l.free xs)) [
    | inl there ↦ let low = cached.4 l.free there in absurd (omega arith)
    | inr away ↦ away
  ]

  -- the nodes of the list are as they were
  kept_cell : (m : ℕ) → contains m xs ≡ true → entered.cells m ≡ l.cells m
  kept_cell m there =
      let apart : (m == l.free) ≡ false = ground (arith, unused, there, ==_iff m l.free) in
      rw apart refl

  own_cell :
      entered.cells l.free ≡ record { header_value = k; endpoint = e; prev = none; next = none }
  own_cell = rw (==_refl l.free) refl

  entered-IsLinked : IsLinked xs entered
  entered-IsLinked = (
    cached.0.0,
    cached.0.1,
    cached.0.2,
    λ m there.
        let (p, q) = cached.0.3 m there in
        (
          ap (λ (c : Node). c.prev) (kept_cell m there) ∙ p,
          ap (λ (c : Node). c.next) (kept_cell m there) ∙ q,
        ),
  )

  move_entered : move_to_head l.free entered ≡ pushed l.free entered
  unfolding move_to_head
  move_entered =
      let first : points_to l.head l.free ≡ false =
        ap (λ h. points_to h l.free) cached.0.0 ∙ head_points xs l.free unused in
      let last : points_to l.tail l.free ≡ false =
        ap (λ h. points_to h l.free) cached.0.1 ∙ last_points none xs l.free refl unused in
      let out =
        remove_outside entered l.free (ap (λ (c : Node). c.prev) own_cell)
          (ap (λ (c : Node). c.next) own_cell) first last in
      rw (first, out) refl

  entered-IsIndexed : IsIndexed (l.free ∷ xs) entered
  entered-IsIndexed j m = (there, back)
    where
      looked : lookup j entered.buf ≡ (if k == j then some l.free else lookup j l.buf)
      looked = lookup-insert k j l.free l.buf

      there :
          lookup j entered.buf ≡ some m
          → (contains m (l.free ∷ xs) ≡ true) × ((entered.cells m).header_value ≡ j)
      there found = elim (Bool-cases (k == j)) [
        | inl same ↦
            let here : some l.free ≡ some m = sym (looked ∙ rw same refl) ∙ found in
            let is : l.free ≡ m = cc in
            (
              rw is (rw (==_refl m) refl),
              ap (λ i. (entered.cells i).header_value) (sym is)
                  ∙ ap (λ (c : Node). c.header_value) own_cell
                  ∙ (==_iff k j).0 same,
            )
        | inr other ↦
            let old : lookup j l.buf ≡ some m = sym (looked ∙ rw other refl) ∙ found in
            let (stands, is) = (cached.1 j m).0 old in
            (ground (arith, stands), ap (λ (c : Node). c.header_value) (kept_cell m stands) ∙ is)
      ]

      back :
          (contains m (l.free ∷ xs) ≡ true) × ((entered.cells m).header_value ≡ j)
          → lookup j entered.buf ≡ some m
      back (stands, is) = elim (Bool-cases (l.free == m)) [
        | inl same ↦
            let is_m = (==_iff l.free m).0 same in
            let key : k ≡ j =
              sym (ap (λ (c : Node). c.header_value) own_cell)
              ∙ ap (λ i. (entered.cells i).header_value) is_m
              ∙ is in
            looked ∙ rw ((==_iff k j).1 key) (ap some is_m)
        | inr other ↦
            let inside : contains m xs ≡ true = ground (arith, stands, other) in
            let header = sym (ap (λ (c : Node). c.header_value) (kept_cell m inside)) ∙ is in
            let old = (cached.1 j m).1 (inside, header) in
            looked ∙ (elim (Bool-cases (k == j)) [
              | inl same ↦
                  let gone : lookup j l.buf ≡ none =
                    ap (λ i. lookup i l.buf) (sym ((==_iff k j).0 same)) ∙ missing in
                  absurd (ground (arith, gone, old))
              | inr apart ↦ rw apart old
            ])
      ]

  abbrev pub InFront : LruCache → Type 0
  InFront l' =
      IsCache (l.free ∷ xs) l'
      × (entries l'.cells (l.free ∷ xs) ≡ (k, e) ∷ entries l.cells xs)
      × (l'.capacity ≡ l.capacity)

  pushed-InFront : InFront (pushed l.free entered)
  pushed-InFront =
      let moved = pushed l.free entered in
      let same = pushed-Same l.free entered in
      (
        (
          pushed-IsLinked xs entered l.free entered-IsLinked unused,
          Same-IsIndexed (l.free ∷ xs) (l.free ∷ xs) entered moved same (λ m. refl)
              entered-IsIndexed,
          rw same.1 (insert-IsMap k l.free l.buf cached.2),
          ap (λ (b : Dict String ℕ). length b) same.1
              ∙ length-insert k l.free l.buf missing
              ∙ ap suc cached.3,
          λ m there. rw same.3 (lower m there),
        ),
        entries_same entered.cells moved.cells (l.free ∷ xs) (λ m there. same.0 m)
            ∙ ap (λ (c : Node). (c.header_value, c.endpoint) ∷ entries entered.cells xs) own_cell
            ∙ ap (λ es. (k, e) ∷ es)
                (entries_same l.cells entered.cells xs (λ m there. (
                  ap (λ (c : Node). c.header_value) (kept_cell m there),
                  ap (λ (c : Node). c.endpoint) (kept_cell m there),
                ))),
        same.2,
      )
    where
      lower : (m : ℕ) → contains m (l.free ∷ xs) ≡ true → m < l.free + 1
      lower m there = elim (Bool-cases (l.free == m)) [
        | inl same ↦ let is = (==_iff l.free m).0 same in omega arith
        | inr other ↦ let low = cached.4 m (ground (arith, there, other)) in omega arith
      ]

  -- An entry that was not there stands in front.
  pub move_to_head-InFront : InFront (move_to_head l.free entered)
  move_to_head-InFront = subst InFront (sym move_entered) pushed-InFront
