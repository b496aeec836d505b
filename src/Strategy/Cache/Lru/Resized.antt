-- ===== src/Strategy/Cache/Lru/Resized.antt =====
-- `resize` of the least-recently-used cache, with one entry too many at most.
use native.Mathlib.Nat.{mod-eq_of_lt}
use yapr.Prelude.{
  ℕ, zero, suc, ◌+◌, ◌%◌, ◌^◌, ◌≤◌, ◌<◌, true, false, List, [], ◌∷◌, some, ◌≡◌, refl, sym, ap, ◌∙◌,
  arith, ◌==◌, nat_eq, string_eq, ==_iff, ==_refl, contains, Bool-cases, inl, inr, length, ltb,
}
use yapr.Go.{Go, ok, ◌>>=◌}
use yapr.Strategy.Cache.Lru.{Node, LruCache, remove, dropped_tail, resize_loop, resize}
use yapr.Strategy.Cache.Lru.Order.{last_of, without, IsDistinct}
use yapr.Strategy.Cache.Lru.Entries.{entries, remove-Same}
use yapr.Strategy.Cache.Lru.Cached.{IsCache, length-without}
use yapr.Strategy.Cache.Lru.Evicted.{deleted, evicted-IsCache, evicted-entries}

abbrev pub keep_first {ℓ} : {A : Type ℓ} → ℕ → List A → List A
keep_first zero xs = []
keep_first (suc n) [] = []
keep_first (suc n) (x ∷ xs) = x ∷ keep_first n xs

keep_all : {A : Type 0} → (n : ℕ) (xs : List A) → length xs ≤ n → keep_first n xs ≡ xs
keep_all zero [] h = refl
keep_all zero (x ∷ xs) h = absurd (omega arith)
keep_all (suc n) [] h = refl
keep_all (suc n) (x ∷ xs) h = ap (◌∷◌ x) (keep_all n xs (omega arith))

entries-keep_first :
    (c : ℕ → Node) (n : ℕ) (xs : List ℕ) → entries c (keep_first n xs) ≡ keep_first n (entries c xs)
entries-keep_first c zero xs = refl
entries-keep_first c (suc n) [] = refl
entries-keep_first c (suc n) (x ∷ xs) =
    ap (λ es. ((c x).header_value, (c x).endpoint) ∷ es) (entries-keep_first c n xs)

length-entries : (c : ℕ → Node) (xs : List ℕ) → length (entries c xs) ≡ length xs
length-entries c [] = refl
length-entries c (x ∷ xs) = ap suc (length-entries c xs)

last_contains :
    (x : ℕ) (xs : List ℕ) (t : ℕ) → last_of (some x) xs ≡ some t → contains t (x ∷ xs) ≡ true
last_contains x [] t h = let is : x ≡ t = cc in rw is (rw (==_refl t) refl)
last_contains x (y ∷ ys) t h = let rest = last_contains y ys t h in ground (arith, rest)

last_some : (x : ℕ) (xs : List ℕ) → (t : ℕ) × (last_of (some x) xs ≡ some t)
last_some x [] = (x, refl)
last_some x (y ∷ ys) = last_some y ys

without_last :
    (x : ℕ) (xs : List ℕ) (t : ℕ)
    → IsDistinct (x ∷ xs)
    → last_of (some x) xs ≡ some t
    → without t (x ∷ xs) ≡ keep_first (length xs) (x ∷ xs)
without_last x [] t d h = let is : x ≡ t = cc in rw is (rw (==_refl t) refl)
without_last x (y ∷ ys) t d h =
    let there = last_contains y ys t h in
    let apart : (x == t) ≡ false = ground (arith, d.0, there, ==_iff x t) in
    rw apart (ap (◌∷◌ x) (without_last y ys t d.1 h))

-- Where nothing is too much, nothing is done.
resize_fits :
    (rounds : ℕ) (l : LruCache)
    → ltb l.capacity (length l.buf % 2 ^ 32) ≡ false
    → resize_loop rounds l ≡ ok l
unfolding resize_loop
resize_fits zero l h = rw h refl
resize_fits (suc rounds) l h = rw h refl

-- What `resize` returns: a cache with the first entries, as many as the capacity.
abbrev pub Trimmed : List ℕ → LruCache → Go LruCache → Type 0
Trimmed ys l r =
    (zs : List ℕ) × (l' : LruCache) × (r ≡ ok l')
    × IsCache zs l'
    × (entries l'.cells zs ≡ keep_first l.capacity (entries l.cells ys))
    × (length zs ≤ l.capacity)
    × (l'.capacity ≡ l.capacity)

size_mod : (n : ℕ) (c : ℕ) → n ≤ c + 1 → c + 1 < 2 ^ 32 → n % 2 ^ 32 ≡ n
size_mod n c most room = mod-eq_of_lt (omega arith)

evicted-Trimmed :
    (x : ℕ) (xs : List ℕ) (l : LruCache)
    → IsCache (x ∷ xs) l
    → length xs ≡ l.capacity
    → l.capacity + 1 < 2 ^ 32
    → Trimmed (x ∷ xs) l (resize_loop (suc (length xs)) l)
unfolding resize_loop
evicted-Trimmed x xs l cached full room =
    let (t, last) = last_some x xs in
    let stands = last_contains x xs t last in
    let l₁ = deleted (x ∷ xs) l cached t stands in
    let l' = remove t l₁ in
    let zs = without t (x ∷ xs) in
    let cached' = evicted-IsCache (x ∷ xs) l cached t stands in
    let shorter = length-without t (x ∷ xs) cached.0.2 stands in
    let over : ltb l.capacity (length l.buf % 2 ^ 32) ≡ true =
      rw (cached.3, size_mod (suc (length xs)) l.capacity (omega arith) room)
        (ground (arith, full)) in
    let tail : l.tail ≡ some t = cached.0.1 ∙ last in
    let capacity : l'.capacity ≡ l.capacity = (remove-Same t l₁).2 in
    let fits : ltb l'.capacity (length l'.buf % 2 ^ 32) ≡ false =
      rw (cached'.3, capacity, size_mod (length zs) l.capacity (omega arith) room)
        (ground (arith, full, shorter)) in
    let done = resize_fits (length xs) l' fits in
    let first : zs ≡ keep_first l.capacity (x ∷ xs) =
      without_last x xs t cached.0.2 last ∙ ap (λ n. keep_first n (x ∷ xs)) full in
    (
      zs,
      l',
      rw over (ap (λ o. dropped_tail l o >>= λ l''. resize_loop (length xs) l'') tail ∙ done),
      cached',
      evicted-entries (x ∷ xs) l cached t stands
          ∙ ap (λ ys. entries l.cells ys) first
          ∙ entries-keep_first l.cells l.capacity (x ∷ xs),
      omega arith,
      capacity,
    )

-- One entry too many at most: the last one goes.
pub resize-Trimmed :
    (ys : List ℕ) (l : LruCache)
    → IsCache ys l
    → length ys ≤ l.capacity + 1
    → l.capacity + 1 < 2 ^ 32
    → Trimmed ys l (resize l)
unfolding resize
resize-Trimmed ys l cached most room = elim (Bool-cases (ltb l.capacity (length ys))) [
  | inl over ↦ rw cached.3 (evict ys cached over most)
  | inr small ↦
      let below : length ys ≤ l.capacity = ground (arith, small) in
      let fits : ltb l.capacity (length l.buf % 2 ^ 32) ≡ false =
        rw (cached.3, size_mod (length ys) l.capacity most room) small in
      (
        ys,
        l,
        resize_fits (length l.buf) l fits,
        cached,
        sym (keep_all l.capacity (entries l.cells ys) (rw (length-entries l.cells ys) below)),
        below,
        refl,
      )
]
  where
    evict :
        (zs : List ℕ)
        → IsCache zs l
        → ltb l.capacity (length zs) ≡ true
        → length zs ≤ l.capacity + 1
        → Trimmed zs l (resize_loop (length zs) l)
    evict [] c over most = absurd (ground (arith, over))
    evict (x ∷ xs) c over most = evicted-Trimmed x xs l c (ground (arith, over, most)) room
