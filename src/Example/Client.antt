-- ===== src/Example/Client.antt =====
-- cmd/example/echo-tcp/client/main.go: requests that share a connection, told apart by their ids.
pub mod Receives
pub mod Ids
use yapr.Prelude.{
  ℕ, zero, suc, ◌+◌, ◌*◌, ◌%◌, ◌^◌, String, string_eq, nat_eq, List, [], ◌∷◌, ◌++◌, Option, none,
  some, length, ◌==◌, if◌then◌else◌,
}
use yapr.Prelude.Dict.{Dict, lookup, insert, delete}
use yapr.Endpoint.{Endpoint}
use yapr.Errcode.{Error, other, Result, success, failure}
use yapr.Go.{Go, ok, panic, raised, ◌>>=◌}
use yapr.Text.{concat}
use yapr.Text.Decimal.{format}
use yapr.Example.Bytes.{Bytes, put_uint32, read_full_uint32, read_full}
use yapr.Example.Message.{Encoding, Message, put_sized, marshal}

pub record Request : Type 0 where
  pub id : ℕ
  pub content : Bytes

-- The messages delivered to the channels of their requests stand under the requests' ids.
pub record Client : Type 0 where
  pub pending_requests : Dict ℕ Request
  pub id : ℕ
  pub send_queue : List Request
  pub delivered : Dict ℕ Bytes

-- `NewClient`, where the address answers
abbrev pub new_client : Client
new_client = record { pending_requests = []; id = 0; send_queue = []; delivered = [] }

-- `Send`, up to where it waits for the response
unfoldable pub send : Client → Bytes → Client
send c message =
    let id = (c.id + 1) % 2 ^ 32 in
    let request : Request = record { id = id; content = put_sized message } in
    record c {
      id = id;
      pending_requests = insert id request c.pending_requests;
      send_queue = c.send_queue ++ request ∷ [];
    }

unfoldable pub send_all : Client → List Bytes → Client
send_all c [] = c
send_all c (m ∷ ms) = send_all (send c m) ms

-- what the sending goroutine writes
unfoldable pub sent_bytes : List Request → Bytes
sent_bytes [] = []
sent_bytes (r ∷ rs) = put_uint32 r.id ++ (r.content ++ sent_bytes rs)

-- How the reading goroutine stands: it waits for bytes, or it has returned since no request has the
-- id that it read. `unfinished` is no end of the code: the rounds of the loop ran out.
pub data Reading : Type 0 where
  waiting not_found unfinished : Reading

abbrev pub drop_pending : Client → ℕ → Client
drop_pending c id = record c { pending_requests = delete id c.pending_requests }

abbrev pub hand_over : Client → ℕ → Bytes → Client
hand_over c id content = record c { delivered = c.delivered ++ (id, content) ∷ [] }

abbrev pub content_read :
    (Client → Bytes → Client × Reading) → Client → ℕ → Option (Bytes × Bytes) → Client × Reading
content_read next c id none = (c, waiting)
content_read next c id (some (content, rest)) = next (hand_over c id content) rest

abbrev pub size_read :
    (Client → Bytes → Client × Reading) → Client → ℕ → Option (ℕ × Bytes) → Client × Reading
size_read next c id none = (c, waiting)
size_read next c id (some (size, rest)) = content_read next c id (read_full size rest)

abbrev pub pending_read :
    (Client → Bytes → Client × Reading) → Client → ℕ → Bytes → Option Request → Client × Reading
pending_read next c id rest none = (c, not_found)
pending_read next c id rest (some request) =
    size_read next (drop_pending c id) id (read_full_uint32 rest)

abbrev pub reply_id_read :
    (Client → Bytes → Client × Reading) → Client → Option (ℕ × Bytes) → Client × Reading
reply_id_read next c none = (c, waiting)
reply_id_read next c (some (id, rest)) = pending_read next c id rest (lookup id c.pending_requests)

-- The reading loop of `NewClient` over the bytes that have come so far, on an open connection.
unfoldable pub receive_loop : ℕ → Client → Bytes → Client × Reading
receive_loop zero c b = (c, unfinished)
receive_loop (suc rounds) c b =
    reply_id_read (λ c' rest. receive_loop rounds c' rest) c (read_full_uint32 b)

-- `createData`: letters A
unfoldable pub repeat_a : ℕ → Bytes
repeat_a zero = []
repeat_a (suc n) = b'A' ∷ repeat_a n

unfoldable pub create_data : String → Result Bytes
create_data size =
    if size == "100B"
    then success (repeat_a 100)
    else if size == "1KB"
    then success (repeat_a 1024)
    else if size == "10KB"
    then success (repeat_a 10240)
    else if size == "64KB"
    then success (repeat_a 65536)
    else if size == "128KB"
    then success (repeat_a 131072)
    else failure (other "size should be 100B 1KB 10KB 64KB 128KB")

-- `addr := fmt.Sprintf("%s:%d", endpoint.IP, port)`
abbrev pub server_address : String → ℕ → String
server_address ip port = concat ip (concat ":" (format port))

-- The call that `Send` hands to `Invoke`, over the clients by their addresses: the client that it sends
-- with, and the message. The error of `client.Send` is nil on every path, and the response is dropped.
abbrev pub with_client :
    Encoding → String → Bytes → Dict String String → Option Client → Go (Client × Message)
with_client enc uid payload headers none = panic (raised (other "client not found"))
with_client enc uid payload headers (some c) =
    let d : Message = record {
      headers = insert "x-uid" uid headers;
      payload = payload;
      err = none;
    } in
    ok (send c (marshal enc d), d)

unfoldable pub send_routed :
    Encoding
    → Dict String Client
    → String
    → Bytes
    → Endpoint
    → ℕ
    → Dict String String
    → Go (Client × Message)
send_routed enc clients uid payload e port headers =
    with_client enc uid payload headers (lookup (server_address e.ip port) clients)
