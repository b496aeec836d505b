-- ===== src/Example/Client/Receives.antt =====
-- Each response goes to the request of its id, in whichever order the responses come.
use mathlib.Core.List.{append_assoc, append-nil}
use yapr.Prelude.{
  ℕ, zero, suc, ◌^◌, ◌<◌, nat_eq, ==_iff, true, [], ◌∷◌, ◌++◌, none, length, ◌≡◌, sym, ap, inl, inr,
  arith, All, Option-cases,
}
use yapr.Prelude.Dict.{Dict, lookup, delete, has, keys, delete_all, IsMap, lookup-delete}
use yapr.Example.Bytes.{
  Bytes, put_uint32, read_full_uint32, read_full_uint32-put_uint32, read_full-append,
}
use yapr.Example.Message.{put_sized}
use yapr.Example.Client.{Client, waiting, drop_pending, hand_over, receive_loop}

-- What a server writes: the id, the length and the bytes of each response.
unfoldable pub response_bytes : Dict ℕ Bytes → Bytes
response_bytes [] = []
response_bytes ((id, content) ∷ rs) = put_uint32 id ++ (put_sized content ++ response_bytes rs)

-- an id and a length of 32 bits
abbrev pub IsResponse : ℕ × Bytes → Type 0
IsResponse (id, content) = (id < 2 ^ 32) × (length content < 2 ^ 32)

abbrev pub IsPending : Client → ℕ × Bytes → Type 0
IsPending c (id, content) = has id c.pending_requests ≡ true

abbrev pub delivered_to : Client → Dict ℕ Bytes → Client
delivered_to c rs = record c {
  pending_requests = delete_all (keys rs) c.pending_requests;
  delivered = c.delivered ++ rs;
}

IsPending-delete :
    (c : Client) (id : ℕ) (content : Bytes) (rs : Dict ℕ Bytes)
    → lookup id rs ≡ none
    → All (IsPending c) rs
    → All (IsPending (hand_over (drop_pending c id) id content)) rs
unfolding lookup
IsPending-delete c id content [] fresh pending = tt
IsPending-delete c id content ((j, w) ∷ rs) fresh pending = (
  ground (arith, lookup-delete id j c.pending_requests, ==_iff id j, ==_iff j id),
  ground (arith, IsPending-delete c id content rs),
)

-- Let responses come, each once for its id and within 32 bits, to requests that are pending. Then more
-- rounds than responses deliver each to the request of its id, leave the other requests pending, and
-- wait for more.
pub receive_loop-response_bytes :
    (rounds : ℕ) (c : Client) (rs : Dict ℕ Bytes)
    → IsMap rs
    → All IsResponse rs
    → All (IsPending c) rs
    → length rs < rounds
    → receive_loop rounds c (response_bytes rs) ≡ (delivered_to c rs, waiting)
unfolding receive_loop response_bytes delete_all
receive_loop-response_bytes zero c rs once fine pending enough = absurd (omega arith)
receive_loop-response_bytes (suc rounds) c [] once fine pending enough =
    unfold read_full_uint32 in
    ap (λ (d : Dict ℕ Bytes). (record c { delivered = d }, waiting)) (sym (append-nil c.delivered))
receive_loop-response_bytes (suc rounds) c ((id, content) ∷ rs) once fine pending enough =
    elim (Option-cases (lookup id c.pending_requests)) [
      | inl lost ↦ absurd (ground (arith, lost, pending.0))
      | inr (request, found) ↦
          let behind = response_bytes rs in
          let head = read_full_uint32-put_uint32 id (put_sized content ++ behind) fine.0.0 in
          let sized = append_assoc (put_uint32 (length content)) content behind in
          let size = read_full_uint32-put_uint32 (length content) (content ++ behind) fine.0.1 in
          let body = read_full-append content behind in
          let next = hand_over (drop_pending c id) id content in
          let others =
            receive_loop-response_bytes rounds next rs once.1 fine.1
              (IsPending-delete c id content rs once.0 pending.1) (omega (arith, enough)) in
          rw (head, found, sized, size, body, others)
            (ap
              (λ (d : Dict ℕ Bytes). (
                record c {
                  pending_requests = delete_all (keys rs) (delete id c.pending_requests);
                  delivered = d;
                },
                waiting,
              ))
              (append_assoc c.delivered ((id, content) ∷ []) rs))
    ]
