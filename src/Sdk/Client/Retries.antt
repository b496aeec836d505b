-- ===== src/Sdk/Client/Retries.antt =====
-- How `invoke` of pkg/yapr/core/sdk/client ends.
use mathlib.Core.Path.{subst}
use yapr.Prelude.{
  ℕ, zero, suc, ◌+◌, ◌*◌, ◌≤◌, String, [], Option, none, some, ◌≡◌, refl, ◌⊎◌, inl, inr, ap, arith,
  ◌==◌, nat_eq, string_eq, if◌then◌else◌, Bool-cases,
}
use yapr.Prelude.Dict.{Dict, insert}
use yapr.Errcode.{Error, coded, ErrWithCode, err_max_retries}
use yapr.Go.{Go, ok, ok_injective, >>=-eq-ok}
use yapr.Sdk.Client.{
  Process, field, if_wrong_endpoint, pause, again, on_error, behind_call, invoke_loop, invoke,
}

-- A call that returns, and adds no more than so much to a measure of the state.
abbrev pub Within : {S A : Type 0} → (S → ℕ) → (A → S) → ℕ → S → Go A → Type 0
Within {A = A} cost state most s call = (r : A) × (call ≡ ok r) × (cost (state r) ≤ cost s + most)

-- The waiting of the rounds that are left.
abbrev pub waits : ℕ → ℕ → ℕ
waits zero i = 0
waits (suc left) i = (if i == 1 then 100 else if i == 2 then 500 else 0) + waits left (suc i)

module _ {S : Type 0} (process : Process S) (from_grpc : Error → Option ErrWithCode)
    (invoker : S → Dict String String → Go (S × Option Error)) where
  open process use {sleep, get_selector, notify_retry}

  module _ (cost : S → ℕ) (call : ℕ)
      (calls : (s : S) (h : Dict String String) → Within cost (λ r. r.0) call s (invoker s h))
      (sleeps : (s : S) (ms : ℕ) → cost (sleep s ms) ≤ cost s + ms)
      (finds : (s : S) (name : String) → cost (get_selector s name).0 ≤ cost s)
      (notifies : (s : S) (name value : String)
        → Within cost (λ r. r) 0 s (notify_retry s name value)) where
    again-Within :
        (next : S → Dict String String → Go (S × Option Error)) (more : ℕ)
        → ((s : S) (h : Dict String String) → Within cost (λ r. r.0) more s (next s h))
        → (e : ErrWithCode) (headers : Dict String String) (p : S × Option Error)
        → Within cost (λ r. r.0) more p.0 (again process next e headers p)
    again-Within next more rest e headers (s, some err) = ((s, some err), refl, omega arith)
    again-Within next more rest e headers (s, none) =
        let (s', told, spent) = notifies s (field e "selectorName") (field e "headerValue") in
        let (r, is, spent') = rest s' (insert "yapr-last-endpoint" (field e "endpoint") headers) in
        rw told (r, is, omega arith)

    pause_cost :
        (i : ℕ) (s : S)
        → cost (pause process i s) ≤ cost s + (if i == 1 then 100 else if i == 2 then 500 else 0)
    pause_cost i s = ground (arith, sleeps s 100, sleeps s 500)

    behind_call-Within :
        (next : S → Dict String String → Go (S × Option Error)) (more i : ℕ)
        → ((s : S) (h : Dict String String) → Within cost (λ r. r.0) more s (next s h))
        → (headers : Dict String String) (p : S × Option Error)
        → Within cost
            (λ r. r.0)
            ((if i == 1 then 100 else if i == 2 then 500 else 0) + more)
            p.0
            (behind_call process from_grpc invoker next i headers p)
    behind_call-Within next more i rest headers (s, none) = ((s, none), refl, omega arith)
    behind_call-Within next more i rest headers (s, some err) =
        go (if_wrong_endpoint (from_grpc err))
      where
        go :
            (e : Option ErrWithCode)
            → Within cost
                (λ r. r.0)
                ((if i == 1 then 100 else if i == 2 then 500 else 0) + more)
                s
                (on_error process next i s headers err e)
        go none = ((s, some err), refl, omega arith)
        go (some e) =
            let p = get_selector (pause process i s) (field e "selectorName") in
            let (r, is, spent) = again-Within next more rest e headers p in
            let found = finds (pause process i s) (field e "selectorName") in
            let paused = pause_cost i s in (r, is, omega arith)

    invoke_loop-Within :
        (left i : ℕ) (s : S) (headers : Dict String String)
        → Within cost
            (λ r. r.0)
            (left * call + waits left i)
            s
            (invoke_loop process from_grpc invoker left i s headers)
    unfolding invoke_loop
    invoke_loop-Within zero i s headers = ((s, some (coded err_max_retries)), refl, omega arith)
    invoke_loop-Within (suc left) i s headers =
        let (p, called, spent) = calls s headers in
        let next = λ (s' : S) (h : Dict String String).
          invoke_loop process from_grpc invoker left (suc i) s' h in
        let more = left * call + waits left (suc i) in
        let (r, is, spent') =
          behind_call-Within next more i (invoke_loop-Within left (suc i)) headers p in
        (r, rw called is, omega arith)

    -- If a call of the invoker returns, and adds no more than `call` to a measure of the state (the calls
    -- made, or the time), a sleep no more than its time, and the other operations return and add nothing,
    -- then `invoke` returns, within three calls and 600 thousandths of a second.
    pub invoke-Within :
        (s : S) → Within cost (λ r. r.0) (3 * call + 600) s (invoke process from_grpc invoker s)
    unfolding invoke
    invoke-Within s = invoke_loop-Within 3 0 s []

  -- An error that `invoke` may end with: the retries are used up, an answer of the invoker is another
  -- error than a wrong endpoint, or `GetSelector` fails.
  abbrev pub IsFinal : Error → Type 0
  IsFinal err =
      (err ≡ coded err_max_retries)
      ⊎ (((s : S) × (h : Dict String String) × (s' : S) × (invoker s h ≡ ok (s', some err))
            × (if_wrong_endpoint (from_grpc err) ≡ none))
          ⊎ ((s : S) × (name : String) × ((get_selector s name).1 ≡ some err)))

  -- The result of the last call, or an error that ends the retries.
  abbrev pub Ends : S × Option Error → Type 0
  Ends (s', none) = (s : S) × (h : Dict String String) × (invoker s h ≡ ok (s', none))
  Ends (s', some err) = IsFinal err

  abbrev Follows : (S → Dict String String → Go (S × Option Error)) → Type 0
  Follows next = (s : S) (h : Dict String String) (r : S × Option Error) → next s h ≡ ok r → Ends r

  again-Ends :
      (next : S → Dict String String → Go (S × Option Error))
      → Follows next
      → (e : ErrWithCode) (headers : Dict String String) (s : S) (name : String)
      → (p r : S × Option Error) → get_selector s name ≡ p
      → again process next e headers p ≡ ok r
      → Ends r
  again-Ends next rest e headers s name (s', some err) r is h =
      subst Ends (ok_injective h) (inr (inr (s, name, ap (λ p. p.1) is)))
  again-Ends next rest e headers s name (s', none) r is h =
      let (s'', told, h') =
        >>=-eq-ok (notify_retry s' (field e "selectorName") (field e "headerValue")) _ h in
      rest s'' _ r h'

  behind_call-Ends :
      (next : S → Dict String String → Go (S × Option Error)) (i : ℕ)
      → Follows next
      → (s : S) (headers : Dict String String) (p r : S × Option Error) → invoker s headers ≡ ok p
      → behind_call process from_grpc invoker next i headers p ≡ ok r
      → Ends r
  behind_call-Ends next i rest s headers (s', none) r is h =
      subst Ends (ok_injective h) (s, headers, is)
  behind_call-Ends next i rest s headers (s', some err) r is h =
      go (if_wrong_endpoint (from_grpc err)) refl h
    where
      go :
          (e : Option ErrWithCode)
          → if_wrong_endpoint (from_grpc err) ≡ e
          → on_error process next i s' headers err e ≡ ok r
          → Ends r
      go none fine h = subst Ends (ok_injective h) (inr (inl (s, headers, s', is, fine)))
      go (some e) wrong h =
          again-Ends next rest e headers (pause process i s') (field e "selectorName") _ r refl h

  invoke_loop-Ends : (left i : ℕ) → Follows (invoke_loop process from_grpc invoker left i)
  unfolding invoke_loop
  invoke_loop-Ends zero i s headers r h = subst Ends (ok_injective h) (inl refl)
  invoke_loop-Ends (suc left) i s headers r h =
      let (p, called, h') = >>=-eq-ok (invoker s headers) _ h in
      behind_call-Ends (invoke_loop process from_grpc invoker left (suc i)) i
        (invoke_loop-Ends left (suc i)) s headers p r called h'

  -- What `invoke` returns without an error is what a call of the invoker returned so. An error that it
  -- returns is that of the retries that are used up, an answer of the invoker that is not a wrong
  -- endpoint, or an error of `GetSelector`.
  pub invoke-Ends :
      (s : S) (r : S × Option Error) → invoke process from_grpc invoker s ≡ ok r → Ends r
  unfolding invoke
  invoke-Ends s r h = invoke_loop-Ends 3 0 s [] r h

  module _ (Good : S → Type 0)
      (refuses : (s : S) (h : Dict String String)
        → Good s
        → (s' : S) × (err : Error) × (e : ErrWithCode) × Good s'
          × (invoker s h ≡ ok (s', some err))
          × (if_wrong_endpoint (from_grpc err) ≡ some e))
      (wakes : (s : S) (ms : ℕ) → Good s → Good (sleep s ms))
      (knows : (s : S) (name : String)
        → Good s
        → (s' : S) × Good s' × (get_selector s name ≡ (s', none)))
      (tells : (s : S) (name value : String)
        → Good s
        → (s' : S) × Good s' × (notify_retry s name value ≡ ok s')) where
    pause_good : (i : ℕ) (s : S) → Good s → Good (pause process i s)
    pause_good i s good = elim (Bool-cases (i == 1)) [
      | inl first ↦ rw first (wakes s 100 good)
      | inr other ↦ elim (Bool-cases (i == 2)) [
        | inl second ↦ rw (other, second) (wakes s 500 good)
        | inr last ↦ rw (other, last) good
      ]
    ]

    invoke_loop_refused :
        (left i : ℕ) (s : S) (headers : Dict String String)
        → Good s
        → (s' : S) × (invoke_loop process from_grpc invoker left i s headers
            ≡ ok (s', some (coded err_max_retries)))
    unfolding invoke_loop
    invoke_loop_refused zero i s headers good = (s, refl)
    invoke_loop_refused (suc left) i s headers good =
        let (s₁, err, e, good₁, called, wrong) = refuses s headers good in
        let name = field e "selectorName" in
        let (s₂, good₂, found) = knows (pause process i s₁) name (pause_good i s₁ good₁) in
        let (s₃, good₃, told) = tells s₂ name (field e "headerValue") good₂ in
        let headers' = insert "yapr-last-endpoint" (field e "endpoint") headers in
        let (s₄, is) = invoke_loop_refused left (suc i) s₃ headers' good₃ in
        (s₄, rw (called, wrong, found, told) is)

    -- If, in the states that can be reached, every call is refused as sent to a wrong endpoint, the
    -- selector is found and its cache can be told, then `invoke` ends with the error of the retries that
    -- are used up.
    pub invoke_refused :
        (s : S)
        → Good s
        → (s' : S) × (invoke process from_grpc invoker s ≡ ok (s', some (coded err_max_retries)))
    unfolding invoke
    invoke_refused s good = invoke_loop_refused 3 0 s [] good
