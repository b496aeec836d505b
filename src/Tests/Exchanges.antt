-- ===== src/Tests/Exchanges.antt =====
-- Two messages on one connection, over texts of a few letters.
use Prim.Native.Char.{Char, code}
use yapr.Prelude.{
  ℕ, ◌+◌, ◌^◌, ◌<◌, String, string_eq, nat_eq, Bool, true, false, [], ◌∷◌, Option, none, some,
  or_default, length, ◌==◌, if◌then◌else◌, ◌≡◌, refl, arith,
}
use yapr.Prelude.Dict.{Dict, lookup, has}
use yapr.Errcode.{Error, coded, other, err_invalid_metadata}
use yapr.Go.{ok}
use yapr.Example.Bytes.{Bytes}
use yapr.Example.Message.{Encoding, Message, marshal, unmarshal_data}
use yapr.Example.Message.RoundTrip.{unmarshal_data-marshal}
use yapr.Example.Server.{Receiver}
use yapr.Example.Server.Ends.{Ends}
use yapr.Example.Client.{Client, receive_loop, waiting}
use yapr.Example.Client.Receives.{receive_loop-response_bytes, response_bytes, delivered_to}

abbrev letters : Dict ℕ Char
letters = (120, "x") ∷ (45, "-") ∷ (117, "u") ∷ (105, "i") ∷ (100, "d") ∷ (55, "7") ∷ []

abbrev codes : String → Bytes
codes String.[] = []
codes (String.◌∷◌ c s) = code c ∷ codes s

text_of : Bytes → String
unfolding lookup
text_of [] = String.[]
text_of (b ∷ bs) = String.◌∷◌ (or_default (lookup b letters) "?") (text_of bs)

message_of : Error → String
message_of (coded e) = e.msg
message_of (other m) = m

abbrev plain : Encoding
plain = record {
  bytes = codes;
  text = text_of;
  message = message_of;
  unmarshal_error = λ s. if s == "invalid metadata" then some err_invalid_metadata else none;
  errorf = λ s. s;
}

abbrev first : Message
first = record { headers = ("x-uid", "7") ∷ []; payload = 1 ∷ 2 ∷ []; err = none }

abbrev second : Message
second = record { headers = []; payload = []; err = none }

unmarshal_data-marshal_example : unmarshal_data plain (marshal plain first) ≡ ok first
unfolding lookup text_of
unmarshal_data-marshal_example =
    unmarshal_data-marshal plain first (refl, tt) (omega arith)
      ((refl, refl, omega arith, omega arith), tt) (omega arith) tt

abbrev refusal : Bool → Option Error
refusal true = none
refusal false = some (coded err_invalid_metadata)

-- It counts the requests, and refuses those without a user.
abbrev counting : Receiver ℕ
counting n headers = ((n + 1, none), refusal (has "x-uid" headers))

abbrev ErrorFits : Option Error → Type 0
ErrorFits none = Unit
ErrorFits (some e) = length (codes (message_of e)) < 2 ^ 31

abbrev pending_pair : Client
pending_pair = record {
  pending_requests =
      (1, record { id = 1; content = [] }) ∷ (2, record { id = 2; content = [] }) ∷ [];
  id = 2;
  send_queue = [];
  delivered = [];
}

receive_loop-response_bytes_example :
    receive_loop 3 pending_pair (response_bytes ((2, 7 ∷ []) ∷ (1, []) ∷ []))
    ≡ (delivered_to pending_pair ((2, 7 ∷ []) ∷ (1, []) ∷ []), waiting)
unfolding lookup
receive_loop-response_bytes_example =
    receive_loop-response_bytes 3 pending_pair ((2, 7 ∷ []) ∷ (1, []) ∷ []) (refl, (refl, tt))
      ((omega arith, omega arith), ((omega arith, omega arith), tt)) (refl, (refl, tt))
      (omega arith)
