-- ===== src/Example/Pods/Apart.antt =====
-- Servers with different ids listen on different ports.
use native.Mathlib.Decide.{dec_lt}
use yapr.Prelude.{
  sym, ℕ, zero, suc, ◌+◌, ◌-◌, ◌*◌, ◌^◌, ◌<◌, ◌≤◌, nat_eq, ==_iff, true, ◌&&◌, contains, ltb, leb,
  ◌≡◌, ◌∙◌, arith,
}
use yapr.Example.Pods.{ports_from, first_port, last_port, ports}

contains-ports_from :
    (p first left : ℕ) → contains p (ports_from first left) ≡ (leb first p && ltb p (first + left))
unfolding ports_from
contains-ports_from p first zero = ground arith
contains-ports_from p first (suc left) =
    ground (arith, contains-ports_from p (first + 1) left, ==_iff first p)

-- Where all ports are below 2 ^ 32, a server with an id above 0 listens exactly on the ports from
-- 23333 + (id - 1) * count on, of which there are as many as it is told.
pub contains-ports :
    (id count p : ℕ)
    → 0 < id
    → 23333 + id * count < 2 ^ 32
    → contains p (ports id count)
      ≡ (leb (23333 + (id - 1) * count) p && ltb p (23333 + (id - 1) * count + count))
unfolding ports
contains-ports zero count p some_id small = absurd (omega arith)
contains-ports (suc n) count p some_id small =
    let former : suc n - 1 ≡ n = omega arith in
    let product : suc n * count ≡ n * count + count = grind arith in
    let first : first_port (suc n) count ≡ 23333 + n * count =
      rw former (omega (arith, product, small)) in
    let left : last_port (suc n) count - first_port (suc n) count ≡ count =
      rw (first, product) (omega (arith, product, small)) in
    rw (left, first, former) (contains-ports_from p (23333 + n * count) count)

ports_bounds :
    (id count p : ℕ)
    → 0 < id
    → 23333 + id * count < 2 ^ 32
    → contains p (ports id count) ≡ true
    → (23333 + (id - 1) * count ≤ p) × (p < 23333 + id * count)
ports_bounds zero count p some_id small here = absurd (omega arith)
ports_bounds (suc n) count p some_id small here =
    let within = contains-ports (suc n) count p some_id small in
    let product : suc n * count ≡ n * count + count = grind arith in
    let former : suc n - 1 ≡ n = omega arith in
    let range : (leb (23333 + n * count) p && ltb p (23333 + n * count + count)) ≡ true =
      rw former at (sym within ∙ here) in
    rw former (ground (arith, range, product))

mul_mono : (m n k : ℕ) → m ≤ n → m * k ≤ n * k
mul_mono m n k h = grind arith

not_above : (id id' count p : ℕ) → 23333 + (id' - 1) * count ≤ p → p < 23333 + id * count → id' ≤ id
not_above id id' count p above below = elim (dec_lt id id') [
  | yes less ↦ absurd (omega (arith, mul_mono id (id' - 1) count (omega arith)))
  | no most ↦ omega arith
]

-- Where all ports are below 2 ^ 32, two servers with ids above 0 that both listen on a port have the same
-- id.
pub ports-apart :
    (id id' count p : ℕ)
    → 0 < id
    → 0 < id'
    → 23333 + id * count < 2 ^ 32
    → 23333 + id' * count < 2 ^ 32
    → contains p (ports id count) ≡ true
    → contains p (ports id' count) ≡ true
    → id ≡ id'
ports-apart id id' count p some_id some_id' small small' here there =
    let (above, below) = ports_bounds id count p some_id small here in
    let (above', below') = ports_bounds id' count p some_id' small' there in
    omega (arith, not_above id id' count p above' below, not_above id' id count p above below')
