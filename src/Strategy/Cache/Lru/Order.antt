-- ===== src/Strategy/Cache/Lru/Order.antt =====
-- Neighbours in a list of addresses, and what leaving one out does to them.
use yapr.Prelude.{
  ℕ, true, false, List, [], ◌∷◌, Option, none, some, ◌≡◌, refl, arith, ◌==◌, nat_eq, ==_iff,
  if◌then◌else◌, not, ◌&&◌, contains, Bool-cases, inl, inr,
}
use yapr.Strategy.Cache.Lru.{points_to}

abbrev pub head_of : List ℕ → Option ℕ
head_of [] = none
head_of (x ∷ xs) = some x

abbrev pub last_of : Option ℕ → List ℕ → Option ℕ
last_of p [] = p
last_of p (x ∷ xs) = last_of (some x) xs

-- The address in front of one, `p` in front of the first.
abbrev pub before : Option ℕ → List ℕ → ℕ → Option ℕ
before p [] n = none
before p (x ∷ xs) n = if x == n then p else before (some x) xs n

abbrev pub after : List ℕ → ℕ → Option ℕ
after [] n = none
after (x ∷ xs) n = if x == n then head_of xs else after xs n

abbrev pub without : ℕ → List ℕ → List ℕ
without n [] = []
without n (x ∷ xs) = if x == n then without n xs else x ∷ without n xs

-- No address stands twice.
abbrev pub IsDistinct : List ℕ → Type 0
IsDistinct [] = Unit
IsDistinct (x ∷ xs) = (contains x xs ≡ false) × IsDistinct xs

pub contains-without :
    (n m : ℕ) (xs : List ℕ) → contains m (without n xs) ≡ (contains m xs && not (n == m))
contains-without n m [] = refl
contains-without n m (x ∷ xs) =
    ground (arith, contains-without n m xs, ==_iff x n, ==_iff x m, ==_iff n m)

pub without-IsDistinct : (n : ℕ) (xs : List ℕ) → IsDistinct xs → IsDistinct (without n xs)
without-IsDistinct n [] d = tt
without-IsDistinct n (x ∷ xs) d = elim (Bool-cases (x == n)) [
  | inl same ↦ rw same (without-IsDistinct n xs d.1)
  | inr other ↦
      let gone = contains-without n x xs in
      rw other (ground (arith, gone, d.0), without-IsDistinct n xs d.1)
]

pub without_absent : (n : ℕ) (xs : List ℕ) → contains n xs ≡ false → without n xs ≡ xs
without_absent n [] h = refl
without_absent n (x ∷ xs) h = ground (arith, without_absent n xs, ==_iff x n)

pub after_points :
    (xs : List ℕ) (m n : ℕ) → contains n xs ≡ false → points_to (after xs m) n ≡ false
after_points [] m n h = refl
after_points (x ∷ []) m n h = ground (arith, h)
after_points (x ∷ y ∷ xs) m n h = ground (arith, h, after_points (y ∷ xs) m n)

pub head_of-without :
    (n : ℕ) (xs : List ℕ)
    → IsDistinct xs
    → head_of (without n xs) ≡ (if points_to (head_of xs) n then after xs n else head_of xs)
head_of-without n [] d = refl
head_of-without n (x ∷ xs) d = elim (Bool-cases (x == n)) [
  | inl same ↦
      let is = (==_iff x n).0 same in
      let kept = without_absent n xs (rw is at d.0) in rw (same, kept) refl
  | inr other ↦ rw other refl
]

pub after-without :
    (n m : ℕ) (xs : List ℕ)
    → IsDistinct xs
    → (m == n) ≡ false
    → after (without n xs) m ≡ (if points_to (after xs m) n then after xs n else after xs m)
after-without n m [] d differ = refl
after-without n m (x ∷ xs) d differ = elim (Bool-cases (x == n)) [
  | inl same ↦
      let is = (==_iff x n).0 same in
      let gone = rw is at d.0 in
      let kept = without_absent n xs gone in
      let away = after_points xs m n gone in
      ground (arith, kept, away, same, differ, ==_iff x n, ==_iff m n, ==_iff x m)
  | inr other ↦ elim (Bool-cases (x == m)) [
    | inl here ↦ rw (other, here) (head_of-without n xs d.1)
    | inr there ↦ rw (other, there) (after-without n m xs d.1 differ)
  ]
]

pub before_points :
    (p : Option ℕ) (xs : List ℕ) (m n : ℕ)
    → points_to p n ≡ false
    → contains n xs ≡ false
    → points_to (before p xs m) n ≡ false
before_points p [] m n away h = refl
before_points p (x ∷ xs) m n away h = elim (Bool-cases (x == m)) [
  | inl here ↦ rw here away
  | inr there ↦
      let apart : (x == n) ≡ false = ground (arith, h) in
      rw there (before_points (some x) xs m n apart (ground (arith, h)))
]

pub before_head :
    (p q : Option ℕ) (xs : List ℕ) (m : ℕ)
    → before q xs m ≡ (if points_to (head_of xs) m then q else before p xs m)
before_head p q [] m = refl
before_head p q (x ∷ xs) m = ground arith

pub before-without :
    (p : Option ℕ) (n m : ℕ) (xs : List ℕ)
    → points_to p n ≡ false
    → IsDistinct xs
    → (m == n) ≡ false
    → before p (without n xs) m
      ≡ (if points_to (before p xs m) n then before p xs n else before p xs m)
before-without p n m [] away d differ = refl
before-without p n m (x ∷ xs) away d differ = elim (Bool-cases (x == n)) [
  | inl same ↦
      let is = (==_iff x n).0 same in
      let gone = rw is at d.0 in
      let kept = without_absent n xs gone in
      let clear = before_points p xs m n away gone in
      let first = before_head p (some x) xs m in
      let start = before_head (some x) p xs m in
      ground (arith, kept, clear, first, start, same, differ, ==_iff x n, ==_iff m n, ==_iff x m)
  | inr other ↦ elim (Bool-cases (x == m)) [
    | inl here ↦ rw (other, here, away) refl
    | inr there ↦ rw (other, there) (before-without (some x) n m xs other d.1 differ)
  ]
]

pub head_points : (xs : List ℕ) (n : ℕ) → contains n xs ≡ false → points_to (head_of xs) n ≡ false
head_points [] n h = refl
head_points (x ∷ xs) n h = ground (arith, h)

-- One address is in front of another exactly if the other is behind it.
pub before-after :
    (p : Option ℕ) (xs : List ℕ) (m n : ℕ)
    → points_to p m ≡ false
    → IsDistinct xs
    → points_to (before p xs n) m ≡ points_to (after xs m) n
before-after p [] m n away d = refl
before-after p (x ∷ xs) m n away d = elim (Bool-cases (x == n)) [
  | inl same ↦
      let is = (==_iff x n).0 same in
      let gone = rw is at d.0 in
      let clear = after_points xs m n gone in
      let first = head_points xs n gone in rw (same, away) (ground (arith, clear, first))
  | inr other ↦ elim (Bool-cases (x == m)) [
    | inl here ↦
        let is = (==_iff x m).0 here in
        let gone = rw is at d.0 in
        let first = before_head none (some x) xs n in
        let clear = before_points none xs n m refl gone in
        rw (other, here) (ground (arith, first, clear, here))
    | inr there ↦ rw (other, there) (before-after (some x) xs m n there d.1)
  ]
]

pub last_points :
    (p : Option ℕ) (xs : List ℕ) (n : ℕ)
    → points_to p n ≡ false
    → contains n xs ≡ false
    → points_to (last_of p xs) n ≡ false
last_points p [] n away h = away
last_points p (x ∷ xs) n away h = last_points (some x) xs n (ground (arith, h)) (ground (arith, h))

last_start :
    (p q : Option ℕ) (n : ℕ) (xs : List ℕ)
    → points_to q n ≡ true
    → points_to p n ≡ false
    → contains n xs ≡ false
    → last_of p xs ≡ (if points_to (last_of q xs) n then p else last_of q xs)
last_start p q n [] this away h = rw this refl
last_start p q n (y ∷ ys) this away h =
    let clear = last_points (some y) ys n (ground (arith, h)) (ground (arith, h)) in rw clear refl

pub last_of-without :
    (p : Option ℕ) (n : ℕ) (xs : List ℕ)
    → points_to p n ≡ false
    → IsDistinct xs
    → last_of p (without n xs)
      ≡ (if points_to (last_of p xs) n then before p xs n else last_of p xs)
last_of-without p n [] away d = rw away refl
last_of-without p n (x ∷ xs) away d = elim (Bool-cases (x == n)) [
  | inl same ↦
      let is = (==_iff x n).0 same in
      let gone = rw is at d.0 in
      let kept = without_absent n xs gone in
      rw (same, kept) (last_start p (some x) n xs same away gone)
  | inr other ↦ rw other (last_of-without (some x) n xs other d.1)
]
