-- ===== src/Sdk/Client/Calls.antt =====
-- `Invoke` of pkg/yapr/core/sdk/client: one route, and the sender's calls under `invoke`. The sender
-- leaves the headers as they are, as the comment on `Invoke` asks.
use yapr.Prelude.{ℕ, String, [], ◌∷◌, Option, none, some, ◌≡◌, refl, string_eq}
use yapr.Prelude.Dict.{Dict}
use yapr.Endpoint.{Endpoint}
use yapr.Errcode.{Error, coded, ErrWithCode, err_max_retries}
use yapr.Go.{Go, ok, panic, nil_map, ◌>>=◌}
use yapr.Router.{Routed, routed, refused}
use yapr.Selector.{merge}
use yapr.Sdk.Client.{Process, if_wrong_endpoint, invoke}
use yapr.Sdk.Client.Retries.{invoke_refused}

-- The operations of the process beside a value that they leave alone.
abbrev pub beside : {S A : Type 0} → Process S → Process (S × A)
beside process = record {
  sleep = λ p ms. (process.sleep p.0 ms, p.1);
  get_selector = λ p name. let found = process.get_selector p.0 name in ((found.0, p.1), found.1);
  notify_retry = λ p name value. process.notify_retry p.0 name value >>= λ s. ok (s, p.1);
}

-- `for k, v := range h { headers[k] = v }`, where `headers` may be nil
abbrev pub merge_into :
    Option (Dict String String) → Dict String String → Go (Option (Dict String String))
merge_into headers [] = ok headers
merge_into none (entry ∷ h) = panic nil_map
merge_into (some headers) (entry ∷ h) = ok (some (merge (entry ∷ h) headers))

module _ {S : Type 0} (process : Process S) (from_grpc : Error → Option ErrWithCode)
    (sender : S → String → Endpoint → ℕ → Option (Dict String String) → Go (S × Option Error)) where
  abbrev pub sending :
      String
      → Endpoint
      → ℕ
      → S × Option (Dict String String)
      → Dict String String
      → Go ((S × Option (Dict String String)) × Option Error)
  sending service endpoint port (s, headers) h = merge_into headers h >>= λ headers'.
      sender s service endpoint port headers' >>= λ sent. ok ((sent.0, headers'), sent.1)

  abbrev pub by_route : S × Routed → Go (S × Option Error)
  by_route (s, refused err) = ok (s, some err)
  by_route (s, routed service endpoint port headers) =
      invoke (beside process) from_grpc (sending service endpoint port) (s, headers) >>= λ ended.
      ok (ended.0.0, ended.1)

  -- `routes` is `route`: `GetRouter` and `Route`.
  unfoldable pub invoke_route : (S → Go (S × Routed)) → S → Go (S × Option Error)
  invoke_route routes s = routes s >>= λ result. by_route result

  module _ (service : String) (endpoint : Endpoint) (port : ℕ)
      (refuses : (s : S) (headers : Option (Dict String String))
        → (s' : S) × (err : Error) × (e : ErrWithCode) × (sender s service endpoint port headers
            ≡ ok (s', some err))
          × (if_wrong_endpoint (from_grpc err) ≡ some e))
      (knows : (s : S) (name : String) → (s' : S) × (process.get_selector s name ≡ (s', none)))
      (tells : (s : S) (name value : String)
        → (s' : S) × (process.notify_retry s name value ≡ ok s')) where
    abbrev Held : S × Option (Dict String String) → Type 0
    Held p = (h : Dict String String) × (p.1 ≡ some h)

    merge_held :
        (headers h : Dict String String)
        → (h' : Dict String String) × (merge_into (some headers) h ≡ ok (some h'))
    merge_held headers [] = (headers, refl)
    merge_held headers (entry ∷ h) = (merge (entry ∷ h) headers, refl)

    sending_refused :
        (p : S × Option (Dict String String)) (h : Dict String String)
        → Held p
        → (p' : S × Option (Dict String String)) × (err : Error) × (e : ErrWithCode) × Held p'
          × (sending service endpoint port p h ≡ ok (p', some err))
          × (if_wrong_endpoint (from_grpc err) ≡ some e)
    sending_refused (s, headers) h (known, is) =
        let (merged, into) = merge_held known h in
        let (s', err, e, sent, wrong) = refuses s (some merged) in
        ((s', some merged), err, e, (merged, refl), rw (is, into, sent) refl, wrong)

    -- Where the endpoint that `Route` finds refuses each call as sent to a wrong endpoint, `Invoke` ends
    -- with the error of the retries that are used up, whatever the caches learn: it routes only once.
    pub invoke_route_refused :
        (routes : S → Go (S × Routed)) (s s₁ : S) (headers : Dict String String)
        → routes s ≡ ok (s₁, routed service endpoint port (some headers))
        → (s' : S) × (invoke_route routes s ≡ ok (s', some (coded err_max_retries)))
    unfolding invoke_route
    invoke_route_refused routes s s₁ headers found =
        let (p, is) =
          invoke_refused (beside process) from_grpc (sending service endpoint port) Held
            sending_refused (λ p ms held. held)
            (λ p name held. let (s', is) = knows p.0 name in ((s', p.1), held, rw is refl))
            (λ p name value held.
              let (s', is) = tells p.0 name value in ((s', p.1), held, rw is refl))
            (s₁, some headers) (headers, refl) in
        (p.0, rw (found, is) refl)
