-- ===== src/Strategy/HashRing/Consistent.antt =====
-- The ring is consistent: a new endpoint takes keys over, and moves no key between the others.
use mathlib.Core.Path.{fun_ext}
use yapr.Prelude.{
  ℕ, zero, suc, ◌+◌, ◌*◌, ◌<◌, ◌≤◌, ◌≡◌, refl, sym, ap, ◌∙◌, String, true, false, [], ◌∷◌, ◌++◌,
  Option, none, some, arith, ◌==◌, nat_eq, string_eq, or_default, Option-cases, Bool-cases, inl,
  inr, ◌⊎◌, ==_iff, contains, ltb, ltb→lt,
}
use yapr.Prelude.Dict.{lookup, keys}
use yapr.Endpoint.{Endpoint, to_string, endpoint_eq}
use yapr.Types.{Attribute, MatchTarget, weight_of}
use yapr.Text.{concat}
use yapr.Text.Decimal.{format}
use yapr.Go.{Go, ok, ◌>>=◌, >>=-eq-ok, ok_injective, >>=_assoc}
use yapr.TreeMap.{TreeMap}
use yapr.Strategy.{Candidates, selected}
use yapr.Strategy.Pick.{Weights, weights_of, weights_of-cons, weight_sum}
use yapr.Strategy.HashRing.{HashRing, put_nodes, fill, update, owner, select}

module _ (tree : TreeMap Endpoint) where
  open tree use {Map, new, put, get, size, ceiling, min}

  -- The node at `key` is the first one from `h` on, going round.
  pub record Owns (m : Map) (h key : ℕ) (e : Endpoint) : Type 0 where
    pub found : get key m ≡ some e
    pub first :
        ((h ≤ key) × ((i : ℕ) → h ≤ i → i < key → get i m ≡ none))
        ⊎ (((i : ℕ) → h ≤ i → get i m ≡ none) × ((i : ℕ) → i < key → get i m ≡ none))

  pub Owns-unique : (m : Map) (h j k : ℕ) (d e : Endpoint) → Owns m h j d → Owns m h k e → d ≡ e
  Owns-unique m h j k d e a b = elim a.first [
    | inl x ↦ elim b.first [
      | inl y ↦ ground (arith, x.1 k, y.1 j, a.found, b.found)
      | inr y ↦ ground (arith, y.0 j, a.found)
    ]
    | inr x ↦ elim b.first [
      | inl y ↦ ground (arith, x.0 k, b.found)
      | inr y ↦ ground (arith, x.1 k, y.1 j, a.found, b.found)
    ]
  ]

  none_before : (m : Map) (k i : ℕ) (d : Endpoint) → get i (put k d m) ≡ none → get i m ≡ none
  none_before m k i d h = ground (arith, tree.get-put k i d m)

  -- One more node: the owner is the new node's or it is the owner before.
  Owns-put :
      (m : Map) (h k j : ℕ) (d e : Endpoint) → Owns (put k d m) h j e → (e ≡ d) ⊎ Owns m h j e
  Owns-put m h k j d e o = elim (Bool-cases (k == j)) [
    | inl same ↦ inl (ground (arith, o.found, tree.get-put k j d m))
    | inr other ↦ inr (record {
      found = ground (arith, o.found, tree.get-put k j d m);
      first = elim o.first [
        | inl x ↦ inl (x.0, λ i le lt. none_before m k i d (x.1 i le lt))
        | inr x ↦
            inr (λ i le. none_before m k i d (x.0 i le), λ i lt. none_before m k i d (x.1 i lt))
      ];
    })
  ]

  pub Owns-owner : (m : Map) (h j : ℕ) (e : Endpoint) → owner tree m h ≡ some (j, e) → Owns m h j e
  Owns-owner m h j e found = elim (Option-cases (ceiling h m)) [
    | inl past ↦
        let (stored, least) = tree.min_some j e m (rw past at found) in
        record { found = stored; first = inr (tree.ceiling_none h m past, least) }
    | inr ((k, d), hit) ↦
        let (stored, above, least) = tree.ceiling_some h k d m hit in
        let same : ◌≡◌ {A = Option (ℕ × Endpoint)} (some (k, d)) (some (j, e)) = rw hit at found in
        record {
          found = ground (arith, stored, same);
          first = inl (ground (arith, above, same), λ i le lt. least i le (ground (arith, same)));
        }
  ]

  owner-none : (m : Map) (h : ℕ) → owner tree m h ≡ none → (i : ℕ) → get i m ≡ none
  owner-none m h nothing i = elim (Option-cases (ceiling h m)) [
    | inl past ↦ tree.min_none m (rw past at nothing) i
    | inr (node, hit) ↦ absurd (ground (arith, hit))
  ]

module _ (tree : TreeMap Endpoint) (hash : String → ℕ) where
  open tree use {Map, new, put, get, size}

  pub Owns-put_nodes :
      (d : Endpoint) (i n : ℕ) (m : Map) (h j : ℕ) (e : Endpoint)
      → Owns tree (put_nodes tree hash d i n m) h j e
      → (e ≡ d) ⊎ Owns tree m h j e
  unfolding put_nodes
  Owns-put_nodes d i zero m h j e o = inr o
  Owns-put_nodes d i (suc n) m h j e o =
      let node = hash (concat (to_string d) (format i)) in
      elim (Owns-put_nodes d (suc i) n (put node d m) h j e o) [
        | inl new_node ↦ inl new_node
        | inr before ↦ Owns-put tree m h node j d e before
      ]

  -- Every owner is a candidate, or was on the ring before.
  Owns-fill :
      (c : Candidates) (m m' : Map) (h j : ℕ) (e : Endpoint)
      → fill tree hash c m ≡ ok m'
      → Owns tree m' h j e
      → (contains e (keys c) ≡ true) ⊎ Owns tree m h j e
  unfolding fill
  Owns-fill [] m m' h j e filled o = inr (rw (ok_injective filled) o)
  Owns-fill ((d, a) ∷ c) m m' h j e filled o =
      let (w, read, later) = >>=-eq-ok (weight_of a) _ filled in
      elim (Owns-fill c _ m' h j e later o) [
        | inl among ↦ inl (ground (arith, among))
        | inr before ↦ elim (Owns-put_nodes d 0 (or_default w 1 * 8) m h j e before) [
          | inl same ↦ inl (ground (arith, ==_iff d e, same))
          | inr older ↦ inr older
        ]
      ]

  pub fill-append :
      (c : Candidates) (d : Endpoint) (a : Attribute) (m : Map)
      → fill tree hash (c ++ (d, a) ∷ []) m ≡ (fill tree hash c m >>= fill tree hash ((d, a) ∷ []))
  unfolding fill
  fill-append [] d a m = refl
  fill-append ((e, b) ∷ c) d a m =
      ap (λ (k : Option ℕ → Go Map). weight_of b >>= k)
        (fun_ext λ w. fill-append c d a (put_nodes tree hash e 0 (or_default w 1 * 8) m))
      ∙ sym (>>=_assoc (weight_of b) _ _)

  -- A ring that holds a node.
  abbrev Occupied : Map → Type 0
  Occupied m = (i : ℕ) × (e : Endpoint) × (get i m ≡ some e)

  Occupied-put : (k : ℕ) (d : Endpoint) (m : Map) → Occupied (put k d m)
  Occupied-put k d m = (k, d, ground (arith, tree.get-put k k d m))

  Occupied-put_nodes :
      (d : Endpoint) (i n : ℕ) (m : Map) → Occupied m → Occupied (put_nodes tree hash d i n m)
  unfolding put_nodes
  Occupied-put_nodes d i zero m o = o
  Occupied-put_nodes d i (suc n) m o = Occupied-put_nodes d (suc i) n _ (Occupied-put _ d m)

  Occupied-put_some :
      (d : Endpoint) (i n : ℕ) (m : Map) → 0 < n → Occupied (put_nodes tree hash d i n m)
  unfolding put_nodes
  Occupied-put_some d i zero m h = absurd (omega arith)
  Occupied-put_some d i (suc n) m h = Occupied-put_nodes d (suc i) n _ (Occupied-put _ d m)

  Occupied-fill :
      (c : Candidates) (m m' : Map) → fill tree hash c m ≡ ok m' → Occupied m → Occupied m'
  unfolding fill
  Occupied-fill [] m m' filled (i, e, here) = (i, e, ap (get i) (sym (ok_injective filled)) ∙ here)
  Occupied-fill ((d, a) ∷ c) m m' filled o =
      let (w, read, later) = >>=-eq-ok (weight_of a) _ filled in
      Occupied-fill c _ m' later (Occupied-put_nodes d 0 (or_default w 1 * 8) m o)

  Occupied-of_weight :
      (c : Candidates) (ws : Weights) (m m' : Map)
      → weights_of c ≡ ok ws
      → 0 < weight_sum ws
      → fill tree hash c m ≡ ok m'
      → Occupied m'
  unfolding fill weight_sum weights_of
  Occupied-of_weight [] [] m m' h positive filled = absurd (omega arith)
  Occupied-of_weight [] (w ∷ ws) m m' h positive filled = cc
  Occupied-of_weight ((d, a) ∷ c) ws m m' h positive filled =
      let (w, rest, read, more, same) = weights_of-cons d a c ws h in
      let sum : weight_sum ws ≡ or_default w 1 + weight_sum rest = ap weight_sum same in
      let later : fill tree hash c (put_nodes tree hash d 0 (or_default w 1 * 8) m) ≡ ok m' =
        rw read at filled in
      elim (Bool-cases (ltb 0 (or_default w 1))) [
        | inl some_weight ↦ Occupied-fill c _ m' later (
            Occupied-put_some d 0 (or_default w 1 * 8) m
              (omega (arith, ltb→lt 0 (or_default w 1) some_weight)))
        | inr no_weight ↦ Occupied-of_weight c rest _ m' more (ground arith) later
      ]

  abbrev pub on_ring : HashRing tree hash → Map → HashRing tree hash
  on_ring r m = record r { ring = some m }

  pub update-fill :
      (r r' : HashRing tree hash) (c : Candidates)
      → update tree hash r c ≡ ok r'
      → (m : Map) × (fill tree hash c new ≡ ok m) × (r' ≡ on_ring r m)
  unfolding update
  update-fill r r' c made =
      let (m, filled, same) = >>=-eq-ok (fill tree hash c new) _ made in (m, filled, cc)

  not_empty : (m : Map) → Occupied m → (size m == 0) ≡ false
  not_empty m (i, e, here) = elim (Bool-cases (size m == 0)) [
    | inl empty ↦
        absurd (ground (arith, (tree.size_zero m).0 ((==_iff (size m) 0).0 empty) i, here))
    | inr full ↦ full
  ]

  -- Let the weights of the candidates be read without a panic, with a positive sum, and let the
  -- request carry the header. Then `Select` after `Update` returns a candidate, without a panic.
  pub select-candidate :
      (r r' : HashRing tree hash) (c : Candidates) (ws : Weights) (target : MatchTarget)
      (value : String)
      → weights_of c ≡ ok ws
      → 0 < weight_sum ws
      → update tree hash r c ≡ ok r'
      → lookup r.header_key target.headers ≡ some value
      → (e : Endpoint) × (contains e (keys c) ≡ true)
        × (select tree hash r' target ≡ ok (selected e))
  unfolding select
  select-candidate r r' c ws target value h positive made sent =
      let (m, filled, same) = update-fill r r' c made in
      let occupied = Occupied-of_weight c ws new m h positive filled in
      elim (Option-cases (owner tree m (hash value))) [
        | inl nothing ↦
            absurd (ground (arith, owner-none tree m (hash value) nothing occupied.0, occupied.2))
        | inr ((j, e), found) ↦ (
          e,
          elim (Owns-fill c new m (hash value) j e filled
              (Owns-owner tree m (hash value) j e found)) [
                | inl among ↦ among
                | inr before ↦ absurd (ground (arith, before.found, tree.get-new j))
              ],
          rw (same, not_empty m occupied, sent, found),
        )
      ]
