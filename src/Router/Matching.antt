-- ===== src/Router/Matching.antt =====
-- What `Match` and `MatchRule` decide.
use yapr.Prelude.{
  ℕ, zero, suc, String, Bool, true, false, List, [], ◌∷◌, Option, none, some, ◌≡◌, refl, ap, ◌∙◌,
  ◌↔◌, ◌⊎◌, inl, inr, arith, ◌==◌, nat_eq, string_eq, if◌then◌else◌, All, get_elem?, Option-cases,
  Bool-cases, not, ◌&&◌,
}
use yapr.Prelude.Dict.{Dict, lookup}
use yapr.Types.{MatchTarget, Matcher}
use yapr.Go.{ok, >>=-eq-ok, ok_injective}
use yapr.Router.{
  regex_headers, match_headers, match_target, match_any, header_matches, must_compile,
}

module _ (compile : String → Option (String → Bool)) where
  -- The pattern compiles, and its expression matches the text.
  abbrev pub Passes : String → String → Type 0
  Passes pattern text = (test : String → Bool) × (compile pattern ≡ some test) × (test text ≡ true)

  abbrev pub HeaderPasses : MatchTarget → String × String → Type 0
  HeaderPasses target (k, pattern) =
      (value : String) × (lookup k target.headers ≡ some value) × Passes pattern value

  -- What a matcher asks of a request.
  pub record Matches (m : Matcher) (target : MatchTarget) : Type 0 where
    pub uri : Passes m.uri target.uri
    pub port : (m.port ≡ 0) ⊎ (target.port ≡ m.port)
    pub headers : All (HeaderPasses target) m.headers

  -- A rule asks for one of its matchers.
  abbrev pub SomeMatches : List Matcher → MatchTarget → Type 0
  SomeMatches matchers target =
      (i : ℕ) × (m : Matcher) × (get_elem? matchers i ≡ some m) × Matches m target

  abbrev pub Compiles : String → Type 0
  Compiles pattern = (test : String → Bool) × (compile pattern ≡ some test)

  abbrev pub CompilesHeader : String × String → Type 0
  CompilesHeader (k, pattern) = Compiles pattern

  -- Every pattern of the matcher compiles.
  abbrev pub IsCompiled : Matcher → Type 0
  IsCompiled m = Compiles m.uri × All CompilesHeader m.headers

  must_compile-eq-ok :
      (v : String) (test : String → Bool) → must_compile compile v ≡ ok test → compile v ≡ some test
  must_compile-eq-ok v test h = elim (Option-cases (compile v)) [
    | inl nothing ↦ absurd (ground (arith, nothing))
    | inr (t, found) ↦ ground (arith, found)
  ]

  header_matches-true :
      (test : String → Bool) (o : Option String)
      → header_matches compile test o ≡ true
      → (value : String) × (o ≡ some value) × (test value ≡ true)
  header_matches-true test none h = absurd (ground arith)
  header_matches-true test (some value) h = (value, refl, h)

  both_true : (b c : Bool) → (if b then c else false) ≡ true → (b ≡ true) × (c ≡ true)
  both_true true c h = (refl, h)
  both_true false c h = absurd (ground arith)

  headers-pass :
      (hs : Dict String String) (target : MatchTarget) (rs : Dict String (String → Bool))
      → regex_headers compile hs ≡ ok rs
      → match_headers compile rs target ≡ true
      → All (HeaderPasses target) hs
  unfolding regex_headers match_headers
  headers-pass [] target rs h p = tt
  headers-pass ((k, v) ∷ hs) target rs h p =
      let (test, compiled, later) = >>=-eq-ok (must_compile compile v) _ h in
      let (rest, more, same) = >>=-eq-ok (regex_headers compile hs) _ later in
      let both : match_headers compile ((k, test) ∷ rest) target ≡ true =
        ap (λ r. match_headers compile r target) (ok_injective same) ∙ p in
      let (first, others) =
        both_true (header_matches compile test (lookup k target.headers))
          (match_headers compile rest target) both in
      let (value, sent, passes) = header_matches-true test (lookup k target.headers) first in
      (
        (value, sent, (test, must_compile-eq-ok v test compiled, passes)),
        headers-pass hs target rest more others,
      )

  pass-headers :
      (hs : Dict String String) (target : MatchTarget)
      → All (HeaderPasses target) hs
      → (rs : Dict String (String → Bool)) × (regex_headers compile hs ≡ ok rs)
        × (match_headers compile rs target ≡ true)
  unfolding regex_headers match_headers
  pass-headers [] target h = ([], refl, refl)
  pass-headers ((k, v) ∷ hs) target ((value, sent, (test, compiled, passes)), more) =
      let (rs, made, matched) = pass-headers hs target more in
      ((k, test) ∷ rs, rw (compiled, made), rw (sent, passes, matched))

  port_passes :
      (mine asked : ℕ)
      → (not (mine == 0) && not (asked == mine)) ≡ false
      → (mine ≡ 0) ⊎ (asked ≡ mine)
  port_passes mine asked h = ground arith

  passes_port :
      (mine asked : ℕ)
      → (mine ≡ 0) ⊎ (asked ≡ mine)
      → (not (mine == 0) && not (asked == mine)) ≡ false
  passes_port mine asked h = ground arith

  match_target→Matches :
      (m : Matcher) (target : MatchTarget)
      → match_target compile m target ≡ ok true
      → Matches m target
  unfolding match_target
  match_target→Matches m target h =
      let (test, compiled, later) = >>=-eq-ok (must_compile compile m.uri) _ h in
      elim (Bool-cases (test target.uri)) [
        | inl uri ↦ elim (Bool-cases (not (m.port == 0) && not (target.port == m.port))) [
          | inl wrong ↦ absurd (ground (arith, uri, wrong, later))
          | inr right ↦
              let (rs, made, same) =
                >>=-eq-ok (regex_headers compile m.headers) _ (rw (uri, right) at later) in
              record {
                uri = (test, must_compile-eq-ok m.uri test compiled, uri);
                port = port_passes m.port target.port right;
                headers = headers-pass m.headers target rs made (ok_injective same);
              }
        ]
        | inr other ↦ absurd (ground (arith, other, later))
      ]

  Matches→match_target :
      (m : Matcher) (target : MatchTarget)
      → Matches m target
      → match_target compile m target ≡ ok true
  unfolding match_target
  Matches→match_target m target h =
      let (test, compiled, uri) = h.uri in
      let (rs, made, matched) = pass-headers m.headers target h.headers in
      rw (compiled, uri, passes_port m.port target.port h.port, made, matched)

  -- `Match` returns true exactly when the request passes the matcher's URI pattern, its port if it
  -- has one, and every pattern of its headers.
  pub match_target-Matches :
      (m : Matcher) (target : MatchTarget)
      → (match_target compile m target ≡ ok true) ↔ Matches m target
  match_target-Matches m target = (match_target→Matches m target, Matches→match_target m target)

  compiled_headers :
      (hs : Dict String String)
      → All CompilesHeader hs
      → (rs : Dict String (String → Bool)) × (regex_headers compile hs ≡ ok rs)
  unfolding regex_headers
  compiled_headers [] h = ([], refl)
  compiled_headers ((k, v) ∷ hs) ((test, compiled), more) =
      let (rs, made) = compiled_headers hs more in ((k, test) ∷ rs, rw (compiled, made))

  match_target-total :
      (m : Matcher) (target : MatchTarget)
      → IsCompiled m
      → (b : Bool) × (match_target compile m target ≡ ok b)
  unfolding match_target
  match_target-total m target ((test, compiled), hs) =
      let (rs, made) = compiled_headers m.headers hs in
      rw (compiled, made)
        (go (test target.uri) (not (m.port == 0) && not (target.port == m.port))
          (match_headers compile rs target))
    where
      go :
          (b c d : Bool)
          → (x : Bool) × ((if b then (if c then ok false else ok d) else ok false) ≡ ok x)
      go true true d = (false, refl)
      go true false d = (d, refl)
      go false c d = (false, refl)

  later_one :
      (m : Matcher) (matchers : List Matcher) (target : MatchTarget)
      → SomeMatches matchers target
      → SomeMatches (m ∷ matchers) target
  later_one m matchers target (i, d, at, holds) = (suc i, d, at, holds)

  not_first :
      (m : Matcher) (matchers : List Matcher) (target : MatchTarget)
      → match_target compile m target ≡ ok false
      → SomeMatches (m ∷ matchers) target
      → SomeMatches matchers target
  not_first m matchers target fails (zero, d, at, h) =
      let holds = Matches→match_target d target h in absurd (ground (arith, at, holds, fails))
  not_first m matchers target fails (suc i, d, at, h) = (i, d, at, h)

  -- Where every pattern of the rule's matchers compiles, `MatchRule` returns, and it returns true
  -- exactly when one of the matchers is satisfied.
  pub match_any-SomeMatches :
      (matchers : List Matcher) (target : MatchTarget)
      → All IsCompiled matchers
      → (b : Bool) × (match_any compile matchers target ≡ ok b)
        × ((b ≡ true) ↔ SomeMatches matchers target)
  unfolding match_any
  match_any-SomeMatches [] target h =
      (false, refl, (λ e. absurd (ground arith), λ (i, m, at, d). absurd (ground arith)))
  match_any-SomeMatches (m ∷ matchers) target h =
      let (b, decided) = match_target-total m target h.0 in
      let (rest, later, means) = match_any-SomeMatches matchers target h.1 in
      elim (Bool-cases b) [
        | inl holds ↦ (
          true,
          rw (decided, holds) refl,
          (λ _. (0, m, refl, match_target→Matches m target (decided ∙ ap ok holds)), λ _. refl),
        )
        | inr fails ↦ (
          rest,
          rw (decided, fails) later,
          (
            λ e. later_one m matchers target (means.0 e),
            λ s. means.1 (not_first m matchers target (decided ∙ ap ok fails) s),
          ),
        )
      ]
