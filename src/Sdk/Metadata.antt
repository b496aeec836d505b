-- ===== src/Sdk/Metadata.antt =====
-- The gRPC interceptors of pkg/yapr/core/sdk: headers of a retry in the metadata of a call, and the
-- headers that a server reads of them. `fresh` is `metadata.New`.
use yapr.Prelude.{
  Bool, String, List, [], ◌∷◌, ◌++◌, Option, none, some, or_default, ◌≡◌, refl, ◌∙◌, arith, ◌==◌,
  string_eq, ==_refl, sym, inl, inr, Bool-cases,
}
use yapr.Prelude.Dict.{Dict, lookup, insert, lookup-insert}
use yapr.Endpoint.{Endpoint}
use yapr.Errcode.{Error, coded, ErrWithCode, Result, err_metadata_not_found}
use yapr.Go.{Go, ok, panic, index_out_of_range, ◌>>=◌, >>=-eq-ok, ok_injective}
use yapr.Sdk.Server.{YaprSdk, on_request_received}
use yapr.Sdk.Client.{Process, invoke}
use yapr.Sdk.Client.Calls.{beside}

abbrev pub Md : Type 0
Md = Dict String (List String)

-- `for k, v := range headers { md[k] = append(md[k], v) }`
unfoldable pub append_headers : Dict String String → Md → Md
append_headers [] md = md
append_headers ((k, v) ∷ headers) md =
    append_headers headers (insert k (or_default (lookup k md) [] ++ v ∷ []) md)

module _ (fresh : Dict String String → Md) where
  -- the metadata of the context after a call with these headers
  abbrev pub outgoing : Dict String String → Option Md → Option Md
  outgoing [] md = md
  outgoing (h ∷ headers) none = some (fresh (h ∷ headers))
  outgoing (h ∷ headers) (some md) = some (append_headers (h ∷ headers) md)

  module _ {S : Type 0} (process : Process S) (from_grpc : Error → Option ErrWithCode)
      (invoker : S → Option Md → Go (S × Option Error)) where
    abbrev pub intercepted :
        S × Option Md → Dict String String → Go ((S × Option Md) × Option Error)
    intercepted (s, md) headers =
        let md' = outgoing headers md in invoker s md' >>= λ called. ok ((called.0, md'), called.1)

    unfoldable pub grpc_client_interceptor : S → Option Md → Go (S × Option Error)
    grpc_client_interceptor s md =
        invoke (beside process) from_grpc intercepted (s, md) >>= λ ended. ok (ended.0.0, ended.1)

abbrev first_value : List String → Go String
first_value [] = panic index_out_of_range
first_value (v ∷ more) = ok v

-- `for k, v := range md { headers[k] = v[0] }`
unfoldable pub first_values : Md → Go (Dict String String)
first_values [] = ok []
first_values ((k, values) ∷ md) = do
  value ← first_value values
  rest ← first_values md
  ok ((k, value) ∷ rest)

-- The state after the call, and its error; `handler` is the call's own.
abbrev pub handled : {A : Type 0} → (A → A × Option Error) → A × Option Error → A × Option Error
handled handler (y, some err) = (y, some err)
handled handler (y, none) = handler y

abbrev pub received :
    Result (Option Endpoint)
    → Bool
    → YaprSdk
    → (YaprSdk → YaprSdk × Option Error)
    → Option Md
    → Go (YaprSdk × Option Error)
received stored known y handler none = ok (y, some (coded err_metadata_not_found))
received stored known y handler (some md) = do
  headers ← first_values md
  ok (handled handler (on_request_received stored known y headers))

unfoldable pub grpc_server_interceptor :
    Result (Option Endpoint)
    → Bool
    → YaprSdk
    → (YaprSdk → YaprSdk × Option Error)
    → Option Md
    → Go (YaprSdk × Option Error)
grpc_server_interceptor stored known y handler md = received stored known y handler md

first_values-lookup :
    (md : Md) (h : Dict String String) (k v : String) (more : List String)
    → first_values md ≡ ok h
    → lookup k md ≡ some (v ∷ more)
    → lookup k h ≡ some v
unfolding first_values lookup
first_values-lookup [] h k v more read is = cc
first_values-lookup ((j, values) ∷ md) h k v more read is =
    let (value, fst, read') = >>=-eq-ok (first_value values) _ read in
    let (rest, snd, made) = >>=-eq-ok (first_values md) _ read' in
    let last : ok ((j, value) ∷ rest) ≡ ok h = made in
    let known = ok_injective last in
    rw (sym known) (elim (Bool-cases (j == k)) [
      | inl same ↦
          let here : some values ≡ some (v ∷ more) = rw same at is in
          rw same (first_lem values fst here)
      | inr other ↦ rw other (first_values-lookup md rest k v more snd (rw other at is))
    ])
  where
    first_lem :
        (l : List String) {w : String}
        → first_value l ≡ ok w
        → some l ≡ some (v ∷ more)
        → some w ≡ some v
    first_lem [] fst here = cc
    first_lem (x ∷ l) fst here = cc

-- A key that is appended to gets a value behind those it has.
append_one :
    (k v : String) (md : Md)
    → lookup k (append_headers ((k, v) ∷ []) md) ≡ some (or_default (lookup k md) [] ++ v ∷ [])
unfolding append_headers
append_one k v md =
    lookup-insert k k (or_default (lookup k md) [] ++ v ∷ []) md ∙ ground (arith, ==_refl k)

-- Where the metadata of a call does not name an endpoint yet, the server that gets the second retry of
-- the interceptor reads the endpoint that refused the first call, not the one that refused last.
pub first_refusal_read :
    (md : Md) (first last : String) (h : Dict String String)
    → lookup "yapr-last-endpoint" md ≡ none
    → first_values (
        append_headers
          (("yapr-last-endpoint", last) ∷ [])
          (append_headers (("yapr-last-endpoint", first) ∷ []) md))
      ≡ ok h
    → lookup "yapr-last-endpoint" h ≡ some first
first_refusal_read md first last h unset read =
    let key : String = "yapr-last-endpoint" in
    let once : lookup key (append_headers ((key, first) ∷ []) md) ≡ some (first ∷ []) =
      append_one key first md ∙ rw unset refl in
    let twice : lookup key
          (append_headers ((key, last) ∷ []) (append_headers ((key, first) ∷ []) md))
        ≡ some (first ∷ last ∷ []) =
      append_one key last _ ∙ rw once refl in
    first_values-lookup _ h key first (last ∷ []) read twice
