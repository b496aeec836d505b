-- ===== src/Selector/Selecting.antt =====
-- What `Select` promises of what it returns.
use mathlib.Core.Path.{subst}
use yapr.Prelude.{
  ℕ, Bool, true, false, Option, none, some, ◌≡◌, refl, sym, ap, ◌∙◌, arith, Option-cases,
  Bool-cases, inl, inr, string_eq, leb, ltb,
}
use yapr.Endpoint.{Endpoint, endpoint_eq}
use yapr.Errcode.{Error, Result, success, failure}
use yapr.Types.{MatchTarget, Selector, Attribute, rps_of}
use yapr.Service.{Service, get_attribute, version}
use yapr.Go.{Go, ok, deadlock, nil_dereference, >>=-eq-ok, ok_injective, or_panic, or_panic-eq-ok}
use yapr.Strategy.{Selected}
use yapr.Selector.{
  Strategy, State, judge, checked, limit_error, reaches, endpoint_error, available_error,
  ensure_strategy, with_strategy, refresh, refresh_strategy, select_service,
  endpoints_with_attribute, stale,
}

-- The endpoint has used up the selector's `MaxRequests`.
abbrev pub over_limit : Option ℕ → Go (Option ℕ) → Bool
over_limit (some limit) (ok (some rps)) = leb limit rps
over_limit limit rps = false

-- The service has the endpoint's attributes, available and below the limit.
pub record Usable (s : Selector) (service : Service) (e : Endpoint) : Type 0 where
  pub attribute : Attribute
  pub known : get_attribute service e s.name ≡ some attribute
  pub available : attribute.common.available ≡ true
  pub below : over_limit s.max_requests (rps_of attribute) ≡ false

by_limit :
    (rps : Option ℕ) (limit : ℕ)
    → reaches rps limit ≡ none
    → over_limit (some limit) (ok rps) ≡ false
by_limit none limit h = refl
by_limit (some rps) limit h = ground (arith, h)

available_error-none :
    (s : Selector) (a : Attribute)
    → available_error s a ≡ ok none
    → (a.common.available ≡ true) × (over_limit s.max_requests (rps_of a) ≡ false)
available_error-none s a h = elim (Bool-cases a.common.available) [
  | inl available ↦ (available, below s.max_requests (simp available at h))
  | inr hung ↦ absurd (ground (arith, hung, h))
]
  where
    below : (limit : Option ℕ) → limit_error limit a ≡ ok none → over_limit limit (rps_of a) ≡ false
    below none h = refl
    below (some limit) h =
        let (rps, read, within) = >>=-eq-ok (rps_of a) _ h in
        ground (arith, read, by_limit rps limit (ok_injective within))

some_injective : {A : Type 0} {a b : A} → some a ≡ some b → a ≡ b
some_injective h = cc

judge-Usable :
    (s : Selector) (service : Service) (found result : Selected) (e : Endpoint)
    → judge s service found ≡ ok result
    → result.error ≡ none
    → result.endpoint ≡ some e
    → Usable s service e
unfolding judge endpoint_error
judge-Usable s service found result e h good is =
    let (err, check, same) = >>=-eq-ok (checked s service found.endpoint found.error) _ h in
    let same_result = ok_injective same in
    let at_e : found.endpoint ≡ some e = ap (λ r. r.endpoint) same_result ∙ is in
    let clean : err ≡ none = ap (λ r. r.error) same_result ∙ good in
    by_error found.endpoint found.error at_e (check ∙ ap ok clean)
  where
    by_error :
        (o : Option Endpoint) (err : Option Error)
        → o ≡ some e
        → checked s service o err ≡ ok none
        → Usable s service e
    by_error none err at_e h = absurd (ground arith)
    by_error (some d) (some err) at_e h = absurd (ground arith)
    by_error (some d) none at_e h =
        let (a, found_a, fine) =
          >>=-eq-ok (or_panic (get_attribute service d s.name) nil_dereference) _ h in
        let (available, below) = available_error-none s a fine in
        let same : d ≡ e = some_injective at_e in
        record {
          attribute = a;
          known =
              ap (λ x. get_attribute service x s.name) (sym same)
              ∙ or_panic-eq-ok (get_attribute service d s.name) nil_dereference found_a;
          available = available;
          below = below;
        }

Usable-at :
    (s s' : Selector) (service service' : Service) (e : Endpoint)
    → s ≡ s'
    → service ≡ service'
    → Usable s service e
    → Usable s' service' e
Usable-at s s' service service' e same_settings same_service u =
    subst (λ x. Usable x service' e) same_settings (subst (λ x. Usable s x e) same_service u)

module _ {S : Type 0} (ops : Strategy S) (build : Selector → Result S) where
  open ops use {select, endpoint_filters, update}

  ensure_settings :
      (st st₁ : State S) (failed : Option Error)
      → ensure_strategy ops build st ≡ ok (st₁, failed)
      → st₁.settings ≡ st.settings
  unfolding ensure_strategy
  ensure_settings st st₁ failed h = go (build st.settings) st.strategy h
    where
      go :
          (built : Result S) (o : Option S)
          → with_strategy st built o ≡ ok (st₁, failed)
          → st₁.settings ≡ st.settings
      go built (some strategy) h = sym (ap (λ p. p.0.settings) (ok_injective h))
      go (success strategy) none h = elim (Bool-cases st.locked) [
        | inl held ↦ absurd (ground (arith, simp held at h))
        | inr free ↦ sym (ap (λ p. p.0.settings) (ok_injective (simp free at h)))
      ]
      go (failure err) none h = elim (Bool-cases st.locked) [
        | inl held ↦ absurd (ground (arith, simp held at h))
        | inr free ↦ sym (ap (λ p. p.0.settings) (ok_injective (simp free at h)))
      ]

  refresh_strategy_settings :
      (v after : ℕ) (st st₁ : State S) (service service₁ : Service)
      → refresh_strategy ops build v after st service ≡ ok (st₁, service₁)
      → st₁.settings ≡ st.settings
  unfolding refresh_strategy
  refresh_strategy_settings v after st st₁ service service₁ h =
      let (strategy, has_one, h₁) = >>=-eq-ok (or_panic st.strategy nil_dereference) _ h in
      let ((service', candidates), made, h₂) =
        >>=-eq-ok (endpoints_with_attribute endpoint_filters st.settings service) _ h₁ in
      let (strategy', updated, h₃) = >>=-eq-ok (update strategy candidates) _ h₂ in
      sym (ap (λ p. p.0.settings) (ok_injective h₃))

  refresh_settings :
      (now after : ℕ) (st st₁ : State S) (service service₁ : Service)
      → refresh ops build now after st service ≡ ok (st₁, service₁)
      → st₁.settings ≡ st.settings
  unfolding refresh
  refresh_settings now after st st₁ service service₁ h =
      elim (Bool-cases (stale now st.last_update)) [
        | inr fresh ↦ sym (ap (λ p. p.0.settings) (ok_injective (simp fresh at h)))
        | inl old ↦ elim (Bool-cases (ltb st.last_version (version service).1)) [
          | inr current ↦ sym (ap (λ p. p.0.settings) (ok_injective (simp (old, current) at h)))
          | inl newer ↦ elim (Bool-cases st.locked) [
            | inl held ↦ absurd (ground (arith, simp (old, newer, held) at h))
            | inr free ↦
                refresh_strategy_settings (version service).1 after st st₁ (version service).0
                  service₁ (simp (old, newer, free) at h)
          ]
        ]
      ]

  -- Let `Select` return an endpoint and no error. Then the service has the endpoint's attributes at
  -- that time, the endpoint is available, and the requests reported for it are below the selector's
  -- `MaxRequests`, if both are known.
  pub select_service-Usable :
      (now after : ℕ) (st st' : State S) (service service' : Service) (target : MatchTarget)
      (result : Selected) (e : Endpoint)
      → select_service ops build now after st service target ≡ ok (st', service', result)
      → result.error ≡ none
      → result.endpoint ≡ some e
      → Usable st.settings service' e
  unfolding select_service
  select_service-Usable now after st st' service service' target result e h good is =
      let ((st₁, failed), built, later) = >>=-eq-ok (ensure_strategy ops build st) _ h in
      elim (Option-cases failed) [
        | inr (err, bad) ↦
            absurd (ground (arith, ap (λ p. p.2.error) (ok_injective (rw bad at later)), good))
        | inl fine ↦
            let ((st₂, service₂), refreshed, h₂) =
              >>=-eq-ok (refresh ops build now after st₁ service) _ (rw fine at later) in
            let (strategy, has_one, h₃) = >>=-eq-ok (or_panic st₂.strategy nil_dereference) _ h₂ in
            let ((strategy', found), chosen, h₄) = >>=-eq-ok (select strategy target) _ h₃ in
            let (judged, passed, h₅) = >>=-eq-ok (judge st₂.settings service₂ found) _ h₄ in
            let same = ok_injective h₅ in
            let usable =
              judge-Usable st₂.settings service₂ found judged e passed
                (ap (λ p. p.2.error) same ∙ good) (ap (λ p. p.2.endpoint) same ∙ is) in
            let settings =
              refresh_settings now after st₁ st₂ service service₂ refreshed
              ∙ ensure_settings st st₁ failed built in
            Usable-at st₂.settings st.settings service₂ service' e settings (ap (λ p. p.1) same)
              usable
      ]

module _ {S : Type 0} (ops : Strategy S) (build : Selector → Result S) where
  with_strategy-locked :
      (st : State S) (built : Result S) → st.locked ≡ true → with_strategy st built none ≡ deadlock
  with_strategy-locked st (success strategy) h = rw h refl
  with_strategy-locked st (failure err) h = rw h refl

  select_service-locked :
      (now after : ℕ) (st : State S) (service : Service) (target : MatchTarget)
      → st.strategy ≡ none
      → st.locked ≡ true
      → select_service ops build now after st service target ≡ deadlock
  unfolding select_service ensure_strategy
  select_service-locked now after st service target nothing held =
      simp (nothing, with_strategy-locked st (build st.settings) held) refl

-- Where the strategy cannot be built, the call of `Select` returns that error, and the next one waits
-- for ever, whatever the builder would return by then.
pub select_service-unbuilt :
    {S : Type 0} (ops : Strategy S) (build build' : Selector → Result S) (now after now' after' : ℕ)
    (st : State S) (service service' : Service) (target target' : MatchTarget) (err : Error)
    → st.strategy ≡ none
    → st.locked ≡ false
    → build st.settings ≡ failure err
    → (st' : State S) × (select_service ops build now after st service target
        ≡ ok (st', service, record { endpoint = none; headers = none; error = some err }))
      × (select_service ops build' now' after' st' service' target' ≡ deadlock)
unfolding select_service ensure_strategy
select_service-unbuilt ops build build' now after now' after' st service service' target target' err
      nothing free failed =
    (
      record st { locked = true },
      simp (nothing, failed, free) refl,
      select_service-locked ops build' now' after' (record st { locked = true }) service' target'
          nothing refl,
    )
