-- ===== src/Strategy/Trace.antt =====
-- Selections one after the other, by one caller at a time.
use yapr.Prelude.{ℕ, zero, suc, ◌+◌, ◌<◌, ◌≡◌, refl, List, [], ◌∷◌, arith, length, get_elem?, ◌==◌}
use yapr.Endpoint.{Endpoint, endpoint_eq}
use yapr.Go.{Go, ok, ◌>>=◌}
use yapr.Strategy.{Selected}
use yapr.Strategy.Count.{to_nat, count, count-suc}
use yapr.Strategy.Pick.{is_endpoint, is_selected}

unfoldable pub trace : {S : Type 0} → (S → Go (S × Selected)) → ℕ → S → Go (List Selected)
trace select zero s = ok []
trace select (suc n) s = do (s', result) ← select s; rest ← trace select n s'; ok (result ∷ rest)

-- how often an endpoint was selected
unfoldable pub times : Endpoint → List Selected → ℕ
times d [] = 0
times d (r ∷ rs) = to_nat (is_selected d r) + times d rs

-- how often an endpoint stands in a list
unfoldable pub occurrences : Endpoint → List Endpoint → ℕ
occurrences d [] = 0
occurrences d (e ∷ es) = to_nat (e == d) + occurrences d es

unfoldable pub results : (ℕ → Selected) → ℕ → ℕ → List Selected
results at start zero = []
results at start (suc n) = at start ∷ results at (suc start) n

pub times-results :
    (d : Endpoint) (at : ℕ → Selected) (start n : ℕ)
    → times d (results at start n) ≡ count (λ i. is_selected d (at i)) start n
unfolding times results count
times-results d at start zero = refl
times-results d at start (suc n) = omega (arith, times-results d at (suc start) n)

-- A counter that steps by one up to a limit.
module _ {S : Type 0} (select : S → Go (S × Selected)) (state : ℕ → S) (at : ℕ → Selected)
    (limit : ℕ)
    (steps : (l : ℕ) → suc l < limit → select (state l) ≡ ok (state (suc l), at (suc l))) where
  pub trace-results :
      (n l : ℕ) → l + n < limit → trace select n (state l) ≡ ok (results at (suc l) n)
  unfolding trace results
  trace-results zero l h = refl
  trace-results (suc n) l h =
      rw (steps l (omega arith)) (rw (trace-results n (suc l) (omega arith)))

pub count-get_elem? :
    (d : Endpoint) (es : List Endpoint)
    → count (λ i. is_endpoint d (get_elem? es i)) 0 (length es) ≡ occurrences d es
unfolding count occurrences
count-get_elem? d [] = refl
count-get_elem? d (e ∷ es) = omega (
  arith,
  count-suc (λ i. is_endpoint d (get_elem? (e ∷ es) i)) 0 (length es),
  count-get_elem? d es,
)
