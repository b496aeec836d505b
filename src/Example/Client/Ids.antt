-- ===== src/Example/Client/Ids.antt =====
-- The ids under which a client sends: each is new.
use mathlib.Core.List.{append_assoc, append-nil}
use yapr.Prelude.{
  ℕ, ◌+◌, ◌%◌, ◌^◌, ◌<◌, nat_eq, ==_iff, ◌&&◌, ◌||◌, List, [], ◌∷◌, ◌++◌, length, ltb, leb, ◌≡◌,
  refl, sym, ◌∙◌, arith,
}
use yapr.Prelude.Dict.{has, lookup-insert}
use yapr.Example.Bytes.{Bytes}
use yapr.Example.Message.{put_sized}
use yapr.Example.Client.{Request, Client, send, send_all}

-- one id after the other
unfoldable pub requests_from : ℕ → List Bytes → List Request
requests_from id [] = []
requests_from id (m ∷ ms) = record { id = id; content = put_sized m } ∷ requests_from (id + 1) ms

-- While the ids do not pass 2 ^ 32, the queue gets a request for each message, under the ids that
-- follow on the client's own.
pub send_all-queue :
    (c : Client) (ms : List Bytes)
    → c.id + length ms < 2 ^ 32
    → (send_all c ms).send_queue ≡ c.send_queue ++ requests_from (c.id + 1) ms
unfolding send_all send requests_from
send_all-queue c [] small = sym (append-nil c.send_queue)
send_all-queue c (m ∷ ms) small =
    let next : (c.id + 1) % 2 ^ 32 ≡ c.id + 1 = omega arith in
    send_all-queue (send c m) ms (omega (arith, next))
    ∙ append_assoc c.send_queue _ (requests_from ((c.id + 1) % 2 ^ 32 + 1) ms)
    ∙ rw next refl

-- So long, an id is pending afterwards if it was, or if it follows on the client's own for one of
-- the messages.
pub send_all-pending :
    (c : Client) (ms : List Bytes) (j : ℕ)
    → c.id + length ms < 2 ^ 32
    → has j (send_all c ms).pending_requests
      ≡ (has j c.pending_requests || (ltb c.id j && leb j (c.id + length ms)))
unfolding send_all send
send_all-pending c [] j small = ground arith
send_all-pending c (m ∷ ms) j small =
    let next : (c.id + 1) % 2 ^ 32 ≡ c.id + 1 = omega arith in
    ground (
      arith,
      next,
      send_all-pending (send c m) ms j (omega (arith, next)),
      lookup-insert (c.id + 1) j (record { id = c.id + 1; content = put_sized m })
          c.pending_requests,
      ==_iff (c.id + 1) j,
    )
