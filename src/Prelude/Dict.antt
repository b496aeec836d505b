-- ===== src/Prelude/Dict.antt =====
-- Go's maps as association lists. A key stands in a map once (`IsMap`), and the order of the list
-- is the order in which a `range` loop happens to visit the entries: a statement about every list
-- is a statement about every order.
use mathlib.Core.Path.{◌≡◌, refl}
use mathlib.Core.Bool.{Bool}
use mathlib.Core.List.{List, [], ◌∷◌}
use mathlib.Core.Option.{Option, none, some}
use native.Mathlib.Omega.{arith}
use yapr.Prelude.Tests.{Eq, ◌==◌, ==_iff, if◌then◌else◌, is_some}
use yapr.Prelude.Lists.{contains}

abbrev pub Dict {ℓ κ} : Type ℓ → Type κ → Type (ℓ ⊔ κ)
Dict K V = List (K × V)

module _ {ℓ κ} {K : Type ℓ} {V : Type κ} where
  -- the keys, in the order of a `range` loop
  abbrev pub keys : Dict K V → List K
  keys [] = []
  keys ((k, v) ∷ m) = k ∷ keys m

module _ {ℓ κ} {K : Type ℓ} {V : Type κ} ⦃e : Eq K⦄ where
  -- `delete(m, k)`
  unfoldable pub delete : K → Dict K V → Dict K V
  delete k [] = []
  delete k ((j, w) ∷ m) = let rest = delete k m in if j == k then rest else (j, w) ∷ rest

  -- `m[k] = v`: an entry keeps its place.
  unfoldable pub insert : K → V → Dict K V → Dict K V
  insert key value [] = (key, value) ∷ []
  insert key value (first ∷ m) =
      let more = insert key value m in if first.0 == key then (first.0, value) ∷ m else first ∷ more

  -- `v, ok := m[k]`
  unfoldable pub lookup : K → Dict K V → Option V
  lookup key [] = none
  lookup key (first ∷ m) = let more = lookup key m in if first.0 == key then some first.1 else more

  abbrev pub has : K → Dict K V → Bool
  has k m = is_some (lookup k m)

  pub lookup-insert :
      (key asked : K) (value : V) (m : Dict K V)
      → lookup asked (insert key value m) ≡ (if key == asked then some value else lookup asked m)
  unfolding insert lookup
  lookup-insert key asked value [] = refl
  lookup-insert key asked value ((first, kept) ∷ m) = ground (
    arith,
    lookup-insert key asked value m,
    ==_iff first key,
    ==_iff first asked,
    ==_iff key asked,
  )

  pub lookup-delete :
      (k j : K) (m : Dict K V) → lookup j (delete k m) ≡ (if k == j then none else lookup j m)
  unfolding lookup delete
  lookup-delete k j [] = ground arith
  lookup-delete k j ((i, w) ∷ m) =
      ground (arith, ==_iff k j, ==_iff i k, ==_iff i j, lookup-delete k j m)

  -- No key stands twice.
  abbrev pub IsMap : Dict K V → Type κ
  IsMap [] = Unit
  IsMap ((k, v) ∷ m) = (lookup k m ≡ none) × IsMap m

  pub insert-IsMap : (k : K) (v : V) (m : Dict K V) → IsMap m → IsMap (insert k v m)
  unfolding lookup insert
  insert-IsMap k v [] h = (refl, tt)
  insert-IsMap k v ((j, w) ∷ m) h =
      ground (arith, ==_iff j k, ==_iff k j, lookup-insert k j v m, insert-IsMap k v m)

  pub delete-IsMap : (k : K) (m : Dict K V) → IsMap m → IsMap (delete k m)
  unfolding lookup delete
  delete-IsMap k [] h = tt
  delete-IsMap k ((j, w) ∷ m) h = ground (arith, lookup-delete k j m, delete-IsMap k m)

  pub contains-keys : (k : K) (m : Dict K V) → contains k (keys m) ≡ has k m
  unfolding lookup
  contains-keys k [] = refl
  contains-keys k ((j, v) ∷ m) = ground (arith, contains-keys k m)

module _ {ℓ κ} {K : Type ℓ} {V : Type κ} ⦃e : Eq K⦄ where
  -- one `delete` for each key
  unfoldable pub delete_all : List K → Dict K V → Dict K V
  delete_all [] m = m
  delete_all (k ∷ ks) m = delete_all ks (delete k m)

  -- the same value stored at each key
  unfoldable pub insert_all : List K → V → Dict K V → Dict K V
  insert_all [] v m = m
  insert_all (k ∷ ks) v m = insert_all ks v (insert k v m)

  pub lookup-delete_all :
      (j : K) (ks : List K) (m : Dict K V)
      → lookup j (delete_all ks m) ≡ (if contains j ks then none else lookup j m)
  unfolding delete_all
  lookup-delete_all j [] m = refl
  lookup-delete_all j (k ∷ ks) m =
      ground (arith, lookup-delete_all j ks (delete k m), lookup-delete k j m)

  pub lookup-insert_all :
      (j : K) (ks : List K) (v : V) (m : Dict K V)
      → lookup j (insert_all ks v m) ≡ (if contains j ks then some v else lookup j m)
  unfolding insert_all
  lookup-insert_all j [] v m = refl
  lookup-insert_all j (k ∷ ks) v m =
      ground (arith, lookup-insert_all j ks v (insert k v m), lookup-insert k j v m)

  pub delete_all-IsMap : (ks : List K) (m : Dict K V) → IsMap m → IsMap (delete_all ks m)
  unfolding delete_all
  delete_all-IsMap [] m h = h
  delete_all-IsMap (k ∷ ks) m h = delete_all-IsMap ks (delete k m) (delete-IsMap k m h)

  pub insert_all-IsMap : (ks : List K) (v : V) (m : Dict K V) → IsMap m → IsMap (insert_all ks v m)
  unfolding insert_all
  insert_all-IsMap [] v m h = h
  insert_all-IsMap (k ∷ ks) v m h = insert_all-IsMap ks v (insert k v m) (insert-IsMap k v m h)

pub ruleset dict_laws = (lookup-insert, lookup-delete, lookup-insert_all, lookup-delete_all)
