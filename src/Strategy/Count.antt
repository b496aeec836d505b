-- ===== src/Strategy/Count.antt =====
-- Counting the rounds of a counter that goes round.
use native.Mathlib.Nat.{mod-eq_of_lt, add-mod_right}
use yapr.Prelude.{
  ℕ, zero, suc, ◌+◌, ◌-◌, ◌*◌, ◌%◌, ◌<◌, ◌≤◌, ◌≡◌, refl, ◌∙◌, ap, Bool, true, false, arith,
}

abbrev pub to_nat : Bool → ℕ
to_nat true = 1
to_nat false = 0

-- how many `i` with `start ≤ i < start + n` pass the test
unfoldable pub count : (ℕ → Bool) → ℕ → ℕ → ℕ
count p start zero = 0
count p start (suc n) = to_nat (p start) + count p (suc start) n

count-last :
    (p : ℕ → Bool) (start n : ℕ) → count p start (suc n) ≡ count p start n + to_nat (p (start + n))
unfolding count
count-last p start zero =
    omega (arith, ap (λ i. to_nat (p i)) {x = start + 0} {y = start} (omega arith))
count-last p start (suc n) = omega (
  arith,
  count-last p (suc start) n,
  ap (λ i. to_nat (p i)) {x = suc start + n} {y = start + suc n} (omega arith),
)

pub count_ext :
    (p q : ℕ → Bool) (start n : ℕ)
    → ((i : ℕ) → start ≤ i → i < start + n → p i ≡ q i)
    → count p start n ≡ count q start n
unfolding count
count_ext p q start zero h = refl
count_ext p q start (suc n) h = omega (
  arith,
  ap to_nat (h start (omega arith) (omega arith)),
  count_ext p q (suc start) n (λ i a b. h i (omega arith) (omega arith)),
)

count-shift :
    (p : ℕ → Bool) (n start : ℕ)
    → 0 < n
    → count (λ i. p (i % n)) (suc start) n ≡ count (λ i. p (i % n)) start n
unfolding count
count-shift p n start h = omega (
  arith,
  first_last,
  count-last (λ i. p (i % n)) start n,
  ap (λ i. to_nat (p i)) {x = (start + n) % n} {y = start % n} (add-mod_right start n),
)
  where
    first_last :
        count (λ i. p (i % n)) start (suc n)
        ≡ to_nat (p (start % n)) + count (λ i. p (i % n)) (suc start) n
    first_last = refl

-- Any `n` rounds in a row see each residue once.
pub count-mod : (p : ℕ → Bool) (n start : ℕ) → 0 < n → count (λ i. p (i % n)) start n ≡ count p 0 n
count-mod p n zero h = count_ext _ _ 0 n (λ i _ lt. ap p (mod-eq_of_lt (omega arith)))
count-mod p n (suc start) h = count-shift p n start h ∙ count-mod p n start h

pub count-append :
    (p : ℕ → Bool) (start m n : ℕ) → count p start (m + n) ≡ count p start m + count p (start + m) n
unfolding count
count-append p start zero n = omega (
  arith,
  ap (λ k. count p start k) {x = 0 + n} {y = n} (omega arith),
  ap (λ k. count p k n) {x = start + 0} {y = start} (omega arith),
)
count-append p start (suc m) n = omega (
  arith,
  ap (λ k. count p start k) {x = suc m + n} {y = suc (m + n)} (omega arith),
  ap (λ k. count p k n) {x = start + suc m} {y = suc start + m} (omega arith),
  count-append p (suc start) m n,
)

pub count-offset :
    (p : ℕ → Bool) (k start n : ℕ) → count (λ i. p (i - k)) (k + start) n ≡ count p start n
unfolding count
count-offset p k start zero = refl
count-offset p k start (suc n) = omega (
  arith,
  ap (λ i. to_nat (p i)) {x = k + start - k} {y = start} (omega arith),
  ap (λ a. count (λ i. p (i - k)) a n) {x = suc (k + start)} {y = k + suc start} (omega arith),
  count-offset p k (suc start) n,
)

pub count_const :
    (p : ℕ → Bool) (b : Bool) (start n : ℕ)
    → ((i : ℕ) → start ≤ i → i < start + n → p i ≡ b)
    → count p start n ≡ n * to_nat b
unfolding count
count_const p b start zero h = omega arith
count_const p b start (suc n) h = omega (
  arith,
  ap to_nat (h start (omega arith) (omega arith)),
  count_const p b (suc start) n (λ i a b. h i (omega arith) (omega arith)),
)

pub count-suc :
    (p : ℕ → Bool) (start n : ℕ) → count p (suc start) n ≡ count (λ i. p (suc i)) start n
unfolding count
count-suc p start zero = refl
count-suc p start (suc n) = omega (arith, count-suc p (suc start) n)
