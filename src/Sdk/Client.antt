-- ===== src/Sdk/Client.antt =====
-- pkg/yapr/core/sdk/client: the retries of a call that is refused. `from_grpc` is `FromGRPCError` over
-- the status of an error and `json.Unmarshal`.
pub mod Retries
pub mod Calls
pub mod Stale
use yapr.Prelude.{
  ℕ, zero, suc, String, List, [], ◌∷◌, Option, none, some, or_default, ◌==◌, nat_eq, string_eq,
  if◌then◌else◌,
}
use yapr.Prelude.Dict.{Dict, insert, lookup}
use yapr.Endpoint.{Endpoint}
use yapr.Errcode.{Error, coded, ErrWithCode, err_wrong_endpoint, err_max_retries}
use yapr.Go.{Go, ok, panic, nil_map, ◌>>=◌}
use yapr.Router.{Routed, routed, refused}
use yapr.Selector.{merge}

-- `FromGRPCError`: the message of a gRPC status, if the error has one, read as JSON.
abbrev pub from_grpc_error :
    (Error → Option String) → (String → Option ErrWithCode) → Error → Option ErrWithCode
from_grpc_error message unmarshal err = read (message err)
  where
    read : Option String → Option ErrWithCode
    read none = none
    read (some text) = unmarshal text

-- What `invoke` uses of the process: `time.Sleep`, the error of `GetSelector`, and `NotifyRetry` of the
-- selector of a name.
pub record Process (S : Type 0) : Type 0 where
  pub sleep : S → ℕ → S
  pub get_selector : S → String → S × Option Error
  pub notify_retry : S → String → String → Go S

-- `errWithCode.Data[k]`
abbrev pub field : ErrWithCode → String → String
field err k = or_default (lookup k err.fields) ""

abbrev pub if_wrong_endpoint : Option ErrWithCode → Option ErrWithCode
if_wrong_endpoint none = none
if_wrong_endpoint (some e) = if e.code == err_wrong_endpoint.code then some e else none

module _ {S : Type 0} (process : Process S) where
  open process use {sleep, get_selector, notify_retry}

  -- `switch i`, in thousandths of a second
  abbrev pub pause : ℕ → S → S
  pause i s = if i == 1 then sleep s 100 else if i == 2 then sleep s 500 else s

  -- The cache of the selector is told, and the next round starts with the endpoint in the headers.
  abbrev pub again :
      (S → Dict String String → Go (S × Option Error))
      → ErrWithCode
      → Dict String String
      → S × Option Error
      → Go (S × Option Error)
  again next e headers (s, some err) = ok (s, some err)
  again next e headers (s, none) =
      notify_retry s (field e "selectorName") (field e "headerValue") >>= λ s'.
      next s' (insert "yapr-last-endpoint" (field e "endpoint") headers)

  abbrev pub on_error :
      (S → Dict String String → Go (S × Option Error))
      → ℕ
      → S
      → Dict String String
      → Error
      → Option ErrWithCode
      → Go (S × Option Error)
  on_error next i s headers err none = ok (s, some err)
  on_error next i s headers err (some e) =
      again next e headers (get_selector (pause i s) (field e "selectorName"))

module _ {S : Type 0} (process : Process S) (from_grpc : Error → Option ErrWithCode)
    (invoker : S → Dict String String → Go (S × Option Error)) where
  abbrev pub behind_call :
      (S → Dict String String → Go (S × Option Error))
      → ℕ
      → Dict String String
      → S × Option Error
      → Go (S × Option Error)
  behind_call next i headers (s, none) = ok (s, none)
  behind_call next i headers (s, some err) =
      on_error process next i s headers err (if_wrong_endpoint (from_grpc err))

  -- The loop of `invoke`, with the rounds that are left and the number of this one.
  unfoldable pub invoke_loop : ℕ → ℕ → S → Dict String String → Go (S × Option Error)
  invoke_loop zero i s headers = ok (s, some (coded err_max_retries))
  invoke_loop (suc left) i s headers =
      let next = λ (s' : S) (headers' : Dict String String). invoke_loop left (suc i) s' headers' in
      invoker s headers >>= λ called. behind_call next i headers called

  unfoldable pub invoke : S → Go (S × Option Error)
  invoke s = invoke_loop 3 0 s []
