-- ===== src/Router/Recovery.antt =====
-- The waiting of `block` and the rounds of `retry`.
use yapr.Prelude.{
  ℕ, zero, suc, ◌<◌, ◌-◌, String, true, false, List, [], ◌∷◌, ◌++◌, Option, none, ◌≡◌, ◌≢◌, refl,
  sym, ap, ◌∙◌, ◌+◌, ◌↔◌, ◌⊎◌, inl, inr, arith, All, Option-cases, Bool-cases,
}
use yapr.Prelude.Dict.{Dict}
use yapr.Endpoint.{Endpoint, endpoint_eq}
use yapr.Types.{MatchTarget}
use yapr.Go.{Go, ok, >>=-eq-ok, ok_injective}
use yapr.Strategy.{Selected}
use yapr.Router.{Event, canceled, elapsed, updated, wait, in_set, Selectors, retry_select}

-- An update of the service after which the endpoint is still not in its set.
abbrev pub Missed : Option Endpoint → Event → Type 0
Missed endpoint event =
    (set : Dict Endpoint (Unit {0})) × (event ≡ updated set) × (in_set endpoint set ≡ false)

-- The events up to the one that wakes.
pub record Woken (endpoint : Option Endpoint) (events : List Event) : Type 0 where
  pub earlier : List Event
  pub set : Dict Endpoint (Unit {0})
  pub later : List Event
  pub order : events ≡ earlier ++ updated set ∷ later
  pub missed : All (Missed endpoint) earlier
  pub found : in_set endpoint set ≡ true

Woken-cons :
    (endpoint : Option Endpoint) (set : Dict Endpoint (Unit {0})) (events : List Event)
    → in_set endpoint set ≡ false
    → Woken endpoint events
    → Woken endpoint (updated set ∷ events)
Woken-cons endpoint set events h w = record {
  earlier = updated set ∷ w.earlier;
  set = w.set;
  later = w.later;
  order = rw w.order refl;
  missed = ((set, refl, h), w.missed);
  found = w.found;
}

wait→Woken :
    (endpoint : Option Endpoint) (events : List Event)
    → wait endpoint events ≡ none
    → Woken endpoint events
unfolding wait
wait→Woken endpoint [] h = absurd (ground arith)
wait→Woken endpoint (canceled ∷ events) h = absurd (ground arith)
wait→Woken endpoint (elapsed ∷ events) h = absurd (ground arith)
wait→Woken endpoint (updated set ∷ events) h = elim (Bool-cases (in_set endpoint set)) [
  | inl found ↦ record {
    earlier = [];
    set = set;
    later = events;
    order = refl;
    missed = tt;
    found = found;
  }
  | inr missed ↦ Woken-cons endpoint set events missed (wait→Woken endpoint events (rw missed at h))
]

wait-Missed :
    (endpoint : Option Endpoint) (earlier : List Event) (set : Dict Endpoint (Unit {0}))
    (later : List Event)
    → All (Missed endpoint) earlier
    → in_set endpoint set ≡ true
    → wait endpoint (earlier ++ updated set ∷ later) ≡ none
unfolding wait
wait-Missed endpoint [] set later h found = rw found refl
wait-Missed endpoint (event ∷ earlier) set later h found =
    let (s, same, missed) = h.0 in
    rw (same, missed) (wait-Missed endpoint earlier set later h.1 found)

-- `block` goes on exactly when an update of the service shows the endpoint in its set, and all that
-- happens earlier are updates that do not: no cancellation, and not the timer.
pub wait-Woken :
    (endpoint : Option Endpoint) (events : List Event)
    → (wait endpoint events ≡ none) ↔ Woken endpoint events
wait-Woken endpoint events = (
  wait→Woken endpoint events,
  λ w. rw w.order (wait-Missed endpoint w.earlier w.set w.later w.missed w.found),
)

module _ {W : Type 0} (sys : Selectors W) (interval : ℕ) (name : String)
    (target : MatchTarget) where
  open sys use {select, sleep}

  -- One selection after a sleep.
  abbrev pub attempt : W → Go (W × Selected)
  attempt w = select (sleep w interval) name target

  -- `n` selections after a sleep each, all with an error: from one process to another, with the last.
  pub data Failures : ℕ → W → Selected → W → Selected → Type 0 where
    done : {w : W} {last : Selected} → Failures zero w last w last
    more :
        {n : ℕ} {w w' w'' : W} {last now final : Selected}
        → attempt w ≡ ok (w', now)
        → now.error ≢ none
        → Failures n w' now w'' final
        → Failures (suc n) w last w'' final

  -- How `times` retries end: with the first selection without an error, or with the last one.
  abbrev pub RetryEnd : ℕ → W → Selected → W → Selected → Type 0
  RetryEnd times w last w' now =
      Failures times w last w' now
      ⊎ ((k : ℕ) × (v : W) × (before : Selected) × (k < times)
          × Failures k w last v before
          × (attempt v ≡ ok (w', now))
          × (now.error ≡ none))

  RetryEnd-more :
      (times : ℕ) (w w' w'' : W) (last now final : Selected)
      → attempt w ≡ ok (w', now)
      → now.error ≢ none
      → RetryEnd times w' now w'' final
      → RetryEnd (suc times) w last w'' final
  RetryEnd-more times w w' w'' last now final found failed (inl all) = inl (more found failed all)
  RetryEnd-more times w w' w'' last now final found failed
        (inr (k, v, before, lt, all, then_found, good)) =
      inr (suc k, v, before, omega arith, more found failed all, then_found, good)

  retry_select→RetryEnd :
      (times : ℕ) (w w' : W) (last now : Selected)
      → retry_select sys times interval name target w last ≡ ok (w', now)
      → RetryEnd times w last w' now
  unfolding retry_select
  retry_select→RetryEnd zero w w' last now h =
      let same = ok_injective h in inl (rw (ap (λ p. p.0) same, ap (λ p. p.1) same) done)
  retry_select→RetryEnd (suc times) w w' last now h =
      let ((v, next), found, later) = >>=-eq-ok (attempt w) _ h in
      elim (Option-cases next.error) [
        | inl good ↦
            let same = ok_injective (rw good at later) in
            inr (
              0,
              w,
              last,
              omega arith,
              done,
              found ∙ ap ok same,
              sym (ap (λ p. p.1.error) same) ∙ good,
            )
        | inr (err, bad) ↦
            RetryEnd-more times w v w' last next now found (λ e. absurd (ground (arith, e, bad)))
              (retry_select→RetryEnd times v w' next now (rw bad at later))
      ]

  Failures-retry_select :
      (k rest times : ℕ) (w v : W) (last before : Selected)
      → Failures k w last v before
      → times ≡ k + rest
      → retry_select sys times interval name target w last
        ≡ retry_select sys rest interval name target v before
  unfolding retry_select
  Failures-retry_select zero rest times w v last before done h =
      let same : times ≡ rest = omega arith in rw same refl
  Failures-retry_select (suc k) rest zero w v last before (more found bad later) h =
      absurd (omega arith)
  Failures-retry_select (suc k) rest (suc times) w v last before
        (more {w' = w'} {now = now} found bad later) h =
      elim (Option-cases now.error) [
        | inl good ↦ absurd (bad good)
        | inr (err, is_bad) ↦
            rw (found, is_bad)
              (Failures-retry_select k rest times w' v now before later (omega arith))
      ]

  RetryEnd→retry_select :
      (times : ℕ) (w w' : W) (last now : Selected)
      → RetryEnd times w last w' now
      → retry_select sys times interval name target w last ≡ ok (w', now)
  unfolding retry_select
  RetryEnd→retry_select times w w' last now (inl all) =
      Failures-retry_select times 0 times w w' last now all (omega arith)
  RetryEnd→retry_select times w w' last now (inr (k, v, before, lt, all, found, good)) =
      Failures-retry_select k (suc (times - suc k)) times w v last before all (omega arith)
      ∙ (rw found (simp good refl))

  -- The loop of `retry` returns a selection exactly when it is the first one without an error, behind
  -- fewer than `times` failures, or the last of `times` failures. In the second case the error stays
  -- in what the loop returns.
  pub retry_select-RetryEnd :
      (times : ℕ) (w w' : W) (last now : Selected)
      → (retry_select sys times interval name target w last ≡ ok (w', now))
        ↔ RetryEnd times w last w' now
  retry_select-RetryEnd times w w' last now =
      (retry_select→RetryEnd times w w' last now, RetryEnd→retry_select times w w' last now)
