-- ===== src/Example/Server/Serves.antt =====
-- The server answers each message of a connection, in their order.
use mathlib.Core.List.{append_assoc}
use yapr.Prelude.{
  ℕ, zero, suc, ◌^◌, ◌<◌, ◌≤◌, string_eq, false, List, [], ◌∷◌, ◌++◌, length, ltb, lt→ltb, ◌≡◌,
  refl, arith, All, String, Bool, true, not, ◌||◌, is_some, Option, none, some, if◌then◌else◌,
  Bool-cases, Option-cases, inl, inr,
}
use yapr.Prelude.Dict.{Dict, IsMap, has}
use yapr.Endpoint.{Endpoint, endpoint_from_string}
use yapr.Sdk.Server.{header}
use yapr.Go.{ok}
use yapr.Example.Bytes.{
  Bytes, put_uint32, read_full_uint32, read_full_uint32-put_uint32, read_full-append,
}
use yapr.Example.Message.{Encoding, Message, put_sized, marshal}
use yapr.Example.Message.RoundTrip.{Fits, Readable, ReadableError, unmarshal_data-marshal}
use yapr.Example.Server.{RouteCall, route_called, Connection, closed, Receiver, answered, read_loop}

-- A message that asks for a custom route names an endpoint that can be read.
abbrev pub is_routable : Dict String String → Bool
is_routable headers =
    not (has "set-custom-route" headers)
    || is_some (endpoint_from_string (header headers "yapr-endpoint"))

abbrev pub call_to : String → Option Endpoint → List RouteCall
call_to uid none = []
call_to uid (some e) = record { uid = uid; endpoint = e } ∷ []

-- the call of `SetCustomRoute` that a message asks for, if any
unfoldable pub calls_for : Dict String String → List RouteCall
calls_for headers =
    if has "set-custom-route" headers
    then call_to (header headers "x-uid") (endpoint_from_string (header headers "yapr-endpoint"))
    else []

route_called-calls_for :
    (headers : Dict String String)
    → is_routable headers ≡ true
    → route_called headers ≡ ok (calls_for headers)
unfolding route_called calls_for
route_called-calls_for headers routable = elim (Bool-cases (has "set-custom-route" headers)) [
  | inl asks ↦ elim (Option-cases (endpoint_from_string (header headers "yapr-endpoint"))) [
    | inl nil ↦ absurd (ground (arith, rw (asks, nil) at routable))
    | inr (e, is) ↦ rw (asks, is) refl
  ]
  | inr quiet ↦ rw quiet refl
]

module _ (enc : Encoding) where
  -- what can be sent and read: the terms of the message's round trip, and the server's limit
  pub record IsSendable (d : Message) : Type 0 where
    pub once : IsMap d.headers
    pub few : length d.headers < 2 ^ 31
    pub headers_readable : All (Readable enc) d.headers
    pub payload_fits : Fits d.payload
    pub error_readable : ReadableError enc d.err
    pub within_limit : length (marshal enc d) ≤ 65536

  -- an id of 32 bits, with a message
  abbrev pub IsRequest : ℕ × Message → Type 0
  IsRequest (id, d) = (id < 2 ^ 32) × IsSendable d × (is_routable d.headers ≡ true)

  -- What a client writes: each id, with the length and the bytes of the message.
  unfoldable pub request_bytes : List (ℕ × Message) → Bytes
  request_bytes [] = []
  request_bytes ((id, d) ∷ requests) =
      put_uint32 id ++ (put_sized (marshal enc d) ++ request_bytes requests)

  module _ {S : Type 0} (receive : Receiver S) where
    -- one request after the other
    unfoldable pub answered_all : Connection S → List (ℕ × Message) → Connection S
    answered_all c [] = c
    answered_all c ((id, d) ∷ requests) =
        answered_all (answered enc receive c id d (calls_for d.headers)) requests

    -- Where no write fails, more rounds than requests answer them all in their order, each under its id
    -- with the error that `OnRequestReceived` gave for it, and then find the connection closed. Each
    -- message can be read back and has at most 65536 bytes, and names a readable endpoint if it asks
    -- for a custom route.
    pub read_loop-request_bytes :
        (rounds : ℕ) (c : Connection S) (requests : List (ℕ × Message))
        → All IsRequest requests
        → length requests < rounds
        → read_loop enc receive none rounds c (request_bytes requests)
          ≡ ok (answered_all c requests, closed)
    unfolding read_loop request_bytes answered_all
    read_loop-request_bytes zero c requests fine enough = absurd (omega arith)
    read_loop-request_bytes (suc rounds) c [] fine enough = unfold read_full_uint32 in refl
    read_loop-request_bytes (suc rounds) c ((id, d) ∷ requests) ((small, sendable, routable), fine)
          enough =
        let bytes = marshal enc d in
        let behind = request_bytes requests in
        let head = read_full_uint32-put_uint32 id (put_sized bytes ++ behind) small in
        let sized = append_assoc (put_uint32 (length bytes)) bytes behind in
        let size =
          read_full_uint32-put_uint32 (length bytes) (bytes ++ behind)
            (omega (arith, sendable.within_limit)) in
        let fits = lt→ltb (length bytes) (2 ^ 31) (omega (arith, sendable.within_limit)) in
        let body = read_full-append bytes behind in
        let message =
          unmarshal_data-marshal enc d sendable.once sendable.few sendable.headers_readable
            sendable.payload_fits sendable.error_readable in
        let others =
          read_loop-request_bytes rounds (answered enc receive c id d (calls_for d.headers))
            requests fine (omega (arith, enough)) in
        let routes = route_called-calls_for d.headers routable in
        let limited : ltb 65536 (length bytes) ≡ false = ground (arith, sendable.within_limit) in
        rw (head, sized, size, fits, limited, body, message, routes) others
