-- ===== src/Strategy/Cache/Lru/Evicted.antt =====
-- The least-recently-used cache without one of its entries.
use yapr.Prelude.{
  ℕ, suc, String, true, false, List, [], ◌∷◌, none, some, ◌≡◌, refl, sym, ap, ◌∙◌, arith, ◌==◌,
  nat_eq, string_eq, ==_iff, if◌then◌else◌, not, ◌&&◌, contains, Bool-cases, inl, inr, length,
}
use yapr.Prelude.Dict.{Dict, lookup, delete, lookup-delete, IsMap, delete-IsMap}
use yapr.Strategy.Cache.Lru.{LruCache, remove}
use yapr.Strategy.Cache.Lru.Order.{without, contains-without}
use yapr.Strategy.Cache.Lru.Linked.{remove-IsLinked}
use yapr.Strategy.Cache.Lru.Entries.{entries, remove-Same, entries_same}
use yapr.Strategy.Cache.Lru.Cached.{
  IsIndexed, IsCache, Same-IsIndexed, IsCache-IsKey, length-without,
}

length-delete :
    (k : String) (m : Dict String ℕ) (n : ℕ)
    → IsMap m
    → lookup k m ≡ some n
    → suc (length (delete k m)) ≡ length m
unfolding lookup delete
length-delete k [] n map h = absurd (ground (arith, h))
length-delete k ((j, v) ∷ m) n map h = elim (Bool-cases (j == k)) [
  | inl same ↦
      let gone : lookup k m ≡ none = ap (λ i. lookup i m) (sym ((==_iff j k).0 same)) ∙ map.0 in
      rw same (ap (λ l. suc (length l)) (delete_missing k m gone))
  | inr other ↦ rw other (ap suc (length-delete k m n map.1 (rw other at h)))
]
  where
    delete_missing : (i : String) (m' : Dict String ℕ) → lookup i m' ≡ none → delete i m' ≡ m'
    delete_missing i [] missing = refl
    delete_missing i ((j', v') ∷ m') missing = ground (arith, delete_missing i m')

module _ (ys : List ℕ) (l : LruCache) (cached : IsCache ys l) (t : ℕ)
    (stands : contains t ys ≡ true) where
  -- the cache without the entry of `t`
  abbrev pub deleted : LruCache
  deleted = record l { buf = delete (l.cells t).header_value l.buf }

  deleted-IsIndexed : IsIndexed (without t ys) deleted
  deleted-IsIndexed j m = (there, back)
    where
      h : String
      h = (l.cells t).header_value

      looked : lookup j deleted.buf ≡ (if h == j then none else lookup j l.buf)
      looked = lookup-delete h j l.buf

      split : contains m (without t ys) ≡ (contains m ys && not (t == m))
      split = contains-without t m ys

      there :
          lookup j deleted.buf ≡ some m
          → (contains m (without t ys) ≡ true) × ((l.cells m).header_value ≡ j)
      there found = elim (Bool-cases (h == j)) [
        | inl same ↦
            let gone : lookup j deleted.buf ≡ none = looked ∙ rw same refl in
            absurd (ground (arith, gone, found))
        | inr other ↦
            let old : lookup j l.buf ≡ some m = sym (looked ∙ rw other refl) ∙ found in
            let (inside, is) = (cached.1 j m).0 old in
            let apart : (t == m) ≡ false = elim (Bool-cases (t == m)) [
              | inr away ↦ away
              | inl same ↦
                  let header : h ≡ j =
                    ap (λ i. (l.cells i).header_value) ((==_iff t m).0 same) ∙ is in
                  absurd (ground (arith, (==_iff h j).1 header, other))
            ] in
            (split ∙ rw (inside, apart) refl, is)
      ]

      back :
          (contains m (without t ys) ≡ true) × ((l.cells m).header_value ≡ j)
          → lookup j deleted.buf ≡ some m
      back (kept, is) =
          let inside : contains m ys ≡ true = ground (arith, split, kept) in
          let apart : (t == m) ≡ false = ground (arith, split, kept) in
          let key = IsCache-IsKey ys l t cached stands m inside in
          let differ : (h == j) ≡ false = ground (
            arith,
            key,
            is,
            apart,
            ==_iff h j,
            ==_iff m t,
            ==_iff t m,
            ==_iff (l.cells m).header_value h,
          ) in
          looked ∙ rw differ ((cached.1 j m).1 (inside, is))

  pub evicted-IsCache : IsCache (without t ys) (remove t deleted)
  evicted-IsCache =
      let same = remove-Same t deleted in
      let found : lookup (l.cells t).header_value l.buf ≡ some t =
        (cached.1 (l.cells t).header_value t).1 (stands, refl) in
      let shorter = length-delete (l.cells t).header_value l.buf t cached.2 found in
      let shorter' = length-without t ys cached.0.2 stands in
      (
        remove-IsLinked ys deleted cached.0 t stands,
        Same-IsIndexed (without t ys) (without t ys) deleted (remove t deleted) same (λ m. refl)
            deleted-IsIndexed,
        rw same.1 (delete-IsMap (l.cells t).header_value l.buf cached.2),
        ap (λ (b : Dict String ℕ). length b) same.1 ∙ ground (arith, shorter, shorter', cached.3),
        λ m there.
            let split = contains-without t m ys in
            rw same.3 (cached.4 m (ground (arith, split, there))),
      )

  pub evicted-entries :
      entries (remove t deleted).cells (without t ys) ≡ entries l.cells (without t ys)
  evicted-entries =
      entries_same deleted.cells (remove t deleted).cells (without t ys)
        (λ m there. (remove-Same t deleted).0 m)
