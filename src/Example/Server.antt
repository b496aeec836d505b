-- ===== src/Example/Server.antt =====
-- cmd/example/echo-tcp/server/main.go: what the server does with the bytes of a connection, and what
-- it writes back.
pub mod Ends
pub mod Serves
use yapr.Prelude.{
  ℕ, zero, suc, ◌+◌, ◌*◌, ◌^◌, String, string_eq, Bool, true, false, List, [], ◌∷◌, ◌++◌, Option,
  none, some, length, ltb, if◌then◌else◌,
}
use yapr.Prelude.Dict.{Dict, has}
use yapr.Endpoint.{Endpoint, endpoint_from_string}
use yapr.Errcode.{Error}
use yapr.Go.{Go, ok, panic, length_out_of_range, nil_dereference, ◌>>=◌}
use yapr.Sdk.Server.{header}
use yapr.Example.Bytes.{Bytes, put_uint32, read_full_uint32, read_full}
use yapr.Example.Message.{Encoding, Message, put_sized, marshal, unmarshal_data}

-- A response, with the function that `OnRequestReceived` returned, if any.
pub record Response (S : Type 0) : Type 0 where
  pub id : ℕ
  pub content : Bytes
  pub sent : Option (S → S)

-- A call of `SetCustomRoute` for the selector "echo-dir" in a goroutine of its own.
pub record RouteCall : Type 0 where
  pub uid : String
  pub endpoint : Endpoint

-- The store takes the endpoint's text, so that a nil endpoint ends the process.
abbrev pub called_with : String → Option Endpoint → Go (List RouteCall)
called_with uid none = panic nil_dereference
called_with uid (some e) = ok (record { uid = uid; endpoint = e } ∷ [])

-- The goroutine that the header `set-custom-route` starts. It panics here as soon as it is started;
-- what its call changes in the store is a change of the process's state, which belongs to the receiver.
unfoldable pub route_called : Dict String String → Go (List RouteCall)
route_called headers =
    if has "set-custom-route" headers
    then called_with (header headers "x-uid")
        (endpoint_from_string (header headers "yapr-endpoint"))
    else ok []

-- A connection: the state of the process, the responses that have been sent into the channel and the
-- calls started.
pub record Connection (S : Type 0) : Type 0 where
  pub process : S
  pub responses : List (Response S)
  pub route_calls : List RouteCall

-- How the reading goroutine ends: with the channel closed, left open, or waiting for ever for room in
-- it. `unfinished` is no end of the code: the rounds of the loop ran out.
pub data Ending : Type 0 where
  closed stopped blocked unfinished : Ending

-- Whether there will be room in the channel, after a number of responses. It holds 1000, and the writing
-- loop takes each of them, until a write fails: then it has taken those that were written and the one
-- that failed, and takes no more.
abbrev pub has_room : Option ℕ → ℕ → Bool
has_room none n = true
has_room (some writes) n = ltb n (writes + 1 + 1000)

-- `sdk.OnRequestReceived`
abbrev pub Receiver : Type 0 → Type 0
Receiver S = S → Dict String String → (S × Option (S → S)) × Option Error

module _ {S : Type 0} (enc : Encoding) (on_request_received : Receiver S) where
  abbrev pub answer_bytes : Message → Option Error → Bytes
  answer_bytes d err = marshal enc (record d { err = err })

  -- The request is received, and its response waits for room.
  abbrev pub taken_in : Connection S → Message → List RouteCall → Connection S
  taken_in c d calls = record c {
    process = (on_request_received c.process d.headers).0.0;
    route_calls = c.route_calls ++ calls;
  }

  abbrev pub answered : Connection S → ℕ → Message → List RouteCall → Connection S
  answered c id d calls =
      let received = on_request_received c.process d.headers in
      record (taken_in c d calls) {
        responses =
            c.responses
            ++ record { id = id; content = answer_bytes d received.1; sent = received.0.1 } ∷ [];
      }

  -- The loop, where the connection takes a number of responses before a write fails, or all of them.
  module _ (writes : Option ℕ) where
    abbrev pub responded :
        (Connection S → Bytes → Go (Connection S × Ending))
        → Connection S
        → ℕ
        → Message
        → List RouteCall
        → Bytes
        → Go (Connection S × Ending)
    responded next c id d calls rest =
        if has_room writes (length c.responses)
        then next (answered c id d calls) rest
        else ok (taken_in c d calls, blocked)

    abbrev pub body_read :
        (Connection S → Bytes → Go (Connection S × Ending))
        → Connection S
        → ℕ
        → Option (Bytes × Bytes)
        → Go (Connection S × Ending)
    body_read next c id none = ok (c, stopped)
    body_read next c id (some (content, rest)) = unmarshal_data enc content >>= λ d.
        route_called d.headers >>= λ calls. responded next c id d calls rest

    -- The length is an `int32`: a negative one is not above the limit, and `make` panics.
    abbrev pub length_read :
        (Connection S → Bytes → Go (Connection S × Ending))
        → Connection S
        → ℕ
        → Option (ℕ × Bytes)
        → Go (Connection S × Ending)
    length_read next c id none = ok (c, stopped)
    length_read next c id (some (w, rest)) =
        if ltb w (2 ^ 31)
        then (if ltb 65536 w then ok (c, stopped) else body_read next c id (read_full w rest))
        else panic length_out_of_range

    abbrev pub at_end : Bytes → Ending
    at_end [] = closed
    at_end (b ∷ bs) = stopped

    abbrev pub id_read :
        (Connection S → Bytes → Go (Connection S × Ending))
        → Connection S
        → Bytes
        → Option (ℕ × Bytes)
        → Go (Connection S × Ending)
    id_read next c b none = ok (c, at_end b)
    id_read next c b (some (id, rest)) = length_read next c id (read_full_uint32 rest)

    -- The reading loop of `handleConnection` over all that the client writes before it closes.
    unfoldable pub read_loop : ℕ → Connection S → Bytes → Go (Connection S × Ending)
    read_loop zero c b = ok (c, unfinished)
    read_loop (suc rounds) c b =
        id_read (λ c' rest. read_loop rounds c' rest) c b (read_full_uint32 b)

module _ {S : Type 0} where
  abbrev pub frame : Response S → Bytes
  frame r = put_uint32 r.id ++ put_sized r.content

  abbrev pub after_sent : Option (S → S) → S → S
  after_sent none s = s
  after_sent (some sent) s = sent s

  -- The writing loop, where the connection takes a number of responses before a write fails: the
  -- bytes that are written, and the process afterwards.
  unfoldable pub write_loop : ℕ → List (Response S) → S → Bytes × S
  write_loop writes [] s = ([], s)
  write_loop zero (r ∷ rs) s = ([], s)
  write_loop (suc writes) (r ∷ rs) s =
      let more = write_loop writes rs (after_sent r.sent s) in (frame r ++ more.0, more.1)
