-- ===== src/TreeMap.antt =====
-- What the program uses of `github.com/emirpasic/gods/maps/treemap` with int keys, as that package
-- documents it. The package is not part of the repository: the strategies take it as a parameter.
pub mod Model
use yapr.Prelude.{ℕ, ◌≤◌, ◌<◌, ◌≡◌, ◌↔◌, Option, none, some, ◌==◌, nat_eq, if◌then◌else◌}

pub record TreeMap (V : Type 0) : Type 1 where
  pub Map : Type 0
  pub new : Map
  pub put : ℕ → V → Map → Map
  pub get : ℕ → Map → Option V
  pub size : Map → ℕ
  pub floor : ℕ → Map → Option (ℕ × V)
  pub ceiling : ℕ → Map → Option (ℕ × V)
  pub min : Map → Option (ℕ × V)
  pub get-new : (i : ℕ) → get i new ≡ none
  pub get-put :
      (k i : ℕ) (v : V) (m : Map) → get i (put k v m) ≡ (if k == i then some v else get i m)
  pub size_zero : (m : Map) → (size m ≡ 0) ↔ ((i : ℕ) → get i m ≡ none)
  -- the greatest key that is at most `k`
  pub floor_some :
      (k j : ℕ) (v : V) (m : Map)
      → floor k m ≡ some (j, v)
      → (get j m ≡ some v) × (j ≤ k) × ((i : ℕ) → i ≤ k → j < i → get i m ≡ none)
  pub floor_none : (k : ℕ) (m : Map) → floor k m ≡ none → (i : ℕ) → i ≤ k → get i m ≡ none
  -- the least key that is at least `k`
  pub ceiling_some :
      (k j : ℕ) (v : V) (m : Map)
      → ceiling k m ≡ some (j, v)
      → (get j m ≡ some v) × (k ≤ j) × ((i : ℕ) → k ≤ i → i < j → get i m ≡ none)
  pub ceiling_none : (k : ℕ) (m : Map) → ceiling k m ≡ none → (i : ℕ) → k ≤ i → get i m ≡ none
  pub min_some :
      (j : ℕ) (v : V) (m : Map)
      → min m ≡ some (j, v)
      → (get j m ≡ some v) × ((i : ℕ) → i < j → get i m ≡ none)
  pub min_none : (m : Map) → min m ≡ none → (i : ℕ) → get i m ≡ none
