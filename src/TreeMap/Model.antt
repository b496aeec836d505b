-- ===== src/TreeMap/Model.antt =====
-- A concrete tree map, which shows that the assumptions on the package can be met.
use yapr.Prelude.{
  ℕ, ◌≤◌, ◌<◌, ◌≡◌, refl, ◌↔◌, Option, none, some, [], ◌∷◌, arith, ltb, leb, length, nat_eq, ==_iff,
  if◌then◌else◌, Option-cases, inl, inr,
}
use yapr.Prelude.Dict.{Dict, lookup, insert, lookup-insert}
use yapr.TreeMap.{TreeMap}

module _ {V : Type 0} where
  -- the entry with the greater key, the first one where they are the same
  abbrev later : ℕ × V → Option (ℕ × V) → Option (ℕ × V)
  later (j, v) none = some (j, v)
  later (j, v) (some (i, w)) = if ltb j i then some (i, w) else some (j, v)

  abbrev earlier : ℕ × V → Option (ℕ × V) → Option (ℕ × V)
  earlier (j, v) none = some (j, v)
  earlier (j, v) (some (i, w)) = if ltb i j then some (i, w) else some (j, v)

  unfoldable pub floor : ℕ → Dict ℕ V → Option (ℕ × V)
  floor k [] = none
  floor k ((j, v) ∷ m) = let r = floor k m in if leb j k then later (j, v) r else r

  unfoldable pub ceiling : ℕ → Dict ℕ V → Option (ℕ × V)
  ceiling k [] = none
  ceiling k ((j, v) ∷ m) = let r = ceiling k m in if leb k j then earlier (j, v) r else r

  pub floor_none : (k : ℕ) (m : Dict ℕ V) → floor k m ≡ none → (i : ℕ) → i ≤ k → lookup i m ≡ none
  unfolding floor lookup
  floor_none k [] h i le = refl
  floor_none k ((j, v) ∷ m) h i le = elim (Option-cases (floor k m)) [
    | inl e ↦ ground (arith, floor_none k m e i le)
    | inr ((a, w), e) ↦ ground arith
  ]

  pub ceiling_none :
      (k : ℕ) (m : Dict ℕ V) → ceiling k m ≡ none → (i : ℕ) → k ≤ i → lookup i m ≡ none
  unfolding ceiling lookup
  ceiling_none k [] h i le = refl
  ceiling_none k ((j, v) ∷ m) h i le = elim (Option-cases (ceiling k m)) [
    | inl e ↦ ground (arith, ceiling_none k m e i le)
    | inr ((a, w), e) ↦ ground arith
  ]

  abbrev IsFloor : ℕ → ℕ → V → Dict ℕ V → Type 0
  IsFloor k j v m = (lookup j m ≡ some v) × (j ≤ k) × ((i : ℕ) → i ≤ k → j < i → lookup i m ≡ none)

  abbrev IsCeiling : ℕ → ℕ → V → Dict ℕ V → Type 0
  IsCeiling k j v m =
      (lookup j m ≡ some v) × (k ≤ j) × ((i : ℕ) → k ≤ i → i < j → lookup i m ≡ none)

  pub floor_some : (k j : ℕ) (v : V) (m : Dict ℕ V) → floor k m ≡ some (j, v) → IsFloor k j v m
  unfolding floor lookup
  floor_some k j v [] h = cc
  floor_some k j v ((i, w) ∷ m) h = elim (Option-cases (floor k m)) [
    | inl e ↦ (ground arith, ground arith, λ a le lt. ground (arith, floor_none k m e a le))
    | inr ((a, x), e) ↦
        let (found, below, next) = floor_some k a x m e in
        (ground arith, ground arith, λ b le lt. ground (arith, next b le))
  ]

  pub ceiling_some :
      (k j : ℕ) (v : V) (m : Dict ℕ V) → ceiling k m ≡ some (j, v) → IsCeiling k j v m
  unfolding ceiling lookup
  ceiling_some k j v [] h = cc
  ceiling_some k j v ((i, w) ∷ m) h = elim (Option-cases (ceiling k m)) [
    | inl e ↦ (ground arith, ground arith, λ a le lt. ground (arith, ceiling_none k m e a le))
    | inr ((a, x), e) ↦
        let (found, below, next) = ceiling_some k a x m e in
        (ground arith, ground arith, λ b le lt. ground (arith, next b le))
  ]

  pub length_zero : (m : Dict ℕ V) → (length m ≡ 0) ↔ ((i : ℕ) → lookup i m ≡ none)
  unfolding lookup
  length_zero [] = (λ h i. refl, λ h. refl)
  length_zero ((j, v) ∷ m) = (λ h. absurd (omega arith), λ h. ground (arith, h j, ==_iff j j))

  pub lookup-nil : (i : ℕ) → lookup {V = V} i [] ≡ none
  unfolding lookup
  lookup-nil i = refl

  pub min_some :
      (j : ℕ) (v : V) (m : Dict ℕ V)
      → ceiling 0 m ≡ some (j, v)
      → (lookup j m ≡ some v) × ((i : ℕ) → i < j → lookup i m ≡ none)
  min_some j v m h =
      let (found, _, least) = ceiling_some 0 j v m h in (found, λ i lt. least i (omega arith) lt)

  pub min_none : (m : Dict ℕ V) → ceiling 0 m ≡ none → (i : ℕ) → lookup i m ≡ none
  min_none m h i = ceiling_none 0 m h i (omega arith)

abbrev pub assoc_map : (V : Type 0) → TreeMap V
assoc_map V = record {
  Map = Dict ℕ V;
  new = [];
  put = insert;
  get = lookup;
  size = length;
  floor = floor;
  ceiling = ceiling;
  min = ceiling 0;
  get-new = lookup-nil;
  get-put = lookup-insert;
  size_zero = length_zero;
  floor_some = floor_some;
  floor_none = floor_none;
  ceiling_some = ceiling_some;
  ceiling_none = ceiling_none;
  min_some = min_some;
  min_none = min_none;
}
