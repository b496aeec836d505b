-- ===== src/Example/Exchange.antt =====
-- The client and the server of cmd/example/echo-tcp on one connection.
use yapr.Prelude.{nat_eq, List, [], map, length}
use yapr.Prelude.Dict.{Dict}
use yapr.Example.Bytes.{Bytes}
use yapr.Example.Message.{Encoding, Message, marshal}
use yapr.Example.Server.{Connection, Receiver, write_loop}
use yapr.Example.Server.Serves.{answered_all}
use yapr.Example.Client.{Client, new_client, send_all}
use yapr.Example.Replies.{numbered}

module _ {S : Type 0} (enc : Encoding) (receive : Receiver S) where
  abbrev pub start : S → Connection S
  start s = record { process = s; responses = []; route_calls = [] }

  -- what the client does to send the messages, and the server's part
  abbrev pub sender : List Message → Client
  sender ds = send_all new_client (map (marshal enc) ds)

  abbrev pub server_after : S → List Message → Connection S
  server_after s ds = answered_all enc receive (start s) (numbered 1 ds)

  abbrev pub sent_back : S → List Message → Bytes
  sent_back s ds =
      let c = server_after s ds in (write_loop (length c.responses) c.responses c.process).0
