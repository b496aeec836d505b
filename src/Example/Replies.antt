-- ===== src/Example/Replies.antt =====
-- The replies that the server of cmd/example/echo-tcp sends to messages under ids that follow.
use mathlib.Core.List.{append_assoc, append-nil, map-append}
use yapr.Prelude.{
  ℕ, String, suc, ◌+◌, ◌^◌, ◌<◌, ◌≤◌, nat_eq, string_eq, ==_iff, ◌&&◌, List, [], ◌∷◌, ◌++◌, map,
  Option, none, some, length, length-append, contains, ltb, leb, true, ◌≡◌, refl, sym, ap, ◌∙◌,
  arith, All,
}
use yapr.Prelude.Dict.{Dict, lookup, IsMap, keys}
use yapr.Errcode.{Error}
use yapr.Example.Bytes.{Bytes, put_uint32}
use yapr.Example.Message.{Encoding, Message, put_sized, put_headers, put_error, marshal}
use yapr.Example.Message.RoundTrip.{Fits}
use yapr.Example.Server.{
  Response, Connection, Receiver, answer_bytes, answered, after_sent, write_loop,
}
use yapr.Example.Server.Serves.{
  IsSendable, IsRequest, request_bytes, answered_all, is_routable, calls_for,
}
use yapr.Example.Client.{sent_bytes}
use yapr.Example.Client.Receives.{response_bytes, IsResponse}
use yapr.Example.Client.Ids.{requests_from}

-- the messages under the ids that follow
unfoldable pub numbered : ℕ → List Message → List (ℕ × Message)
numbered id [] = []
numbered id (d ∷ ds) = (id, d) ∷ numbered (id + 1) ds

pub length-numbered : (id : ℕ) (ds : List Message) → length (numbered id ds) ≡ length ds
unfolding numbered
length-numbered id [] = refl
length-numbered id (d ∷ ds) = ap suc (length-numbered (id + 1) ds)

pub write_loop-response_bytes :
    {S : Type 0} (rs : List (Response S)) (s : S)
    → (write_loop (length rs) rs s).0 ≡ response_bytes (map (λ r. (r.id, r.content)) rs)
unfolding write_loop response_bytes
write_loop-response_bytes [] s = refl
write_loop-response_bytes (r ∷ rs) s =
    append_assoc (put_uint32 r.id) (put_sized r.content) _
    ∙ ap (λ (b : Bytes). put_uint32 r.id ++ (put_sized r.content ++ b))
        (write_loop-response_bytes rs (after_sent r.sent s))

module _ (enc : Encoding) where
  pub sent_bytes-requests_from :
      (id : ℕ) (ds : List Message)
      → sent_bytes (requests_from id (map (marshal enc) ds)) ≡ request_bytes enc (numbered id ds)
  unfolding sent_bytes requests_from request_bytes numbered
  sent_bytes-requests_from id [] = refl
  sent_bytes-requests_from id (d ∷ ds) =
      ap (λ (b : Bytes). put_uint32 id ++ (put_sized (marshal enc d) ++ b))
        (sent_bytes-requests_from (id + 1) ds)

  pub numbered-IsRequest :
      (id : ℕ) (ds : List Message)
      → id + length ds ≤ 2 ^ 32
      → All (IsSendable enc) ds
      → All (λ d. is_routable d.headers ≡ true) ds
      → All (IsRequest enc) (numbered id ds)
  unfolding numbered
  numbered-IsRequest id [] small fine routable = tt
  numbered-IsRequest id (d ∷ ds) small fine routable = (
    (omega arith, fine.0, routable.0),
    numbered-IsRequest (id + 1) ds (omega arith) fine.1 routable.1,
  )

  module _ {S : Type 0} (receive : Receiver S) where
    -- The replies: to each message the message itself, with the error that `OnRequestReceived` gives
    -- for its headers when the requests before it have been taken.
    unfoldable pub replies : S → List (ℕ × Message) → Dict ℕ Bytes
    replies s [] = []
    replies s ((id, d) ∷ requests) =
        let received = receive s d.headers in
        (id, answer_bytes enc receive d received.1) ∷ replies received.0.0 requests

    abbrev pub pair_of : Response S → ℕ × Bytes
    pair_of r = (r.id, r.content)

    pub replies-answered_all :
        (c : Connection S) (requests : List (ℕ × Message))
        → map pair_of (answered_all enc receive c requests).responses
          ≡ map pair_of c.responses ++ replies c.process requests
    unfolding answered_all replies
    replies-answered_all c [] = sym (append-nil _)
    replies-answered_all c ((id, d) ∷ requests) =
        replies-answered_all (answered enc receive c id d (calls_for d.headers)) requests
        ∙ rw map-append (append_assoc (map pair_of c.responses) _ _)

    replies-lookup :
        (s : S) (id j : ℕ) (ds : List Message)
        → j < id
        → lookup j (replies s (numbered id ds)) ≡ none
    unfolding replies numbered lookup
    replies-lookup s id j [] less = refl
    replies-lookup s id j (d ∷ ds) less =
        ground (arith, ==_iff id j, replies-lookup (receive s d.headers).0.0 (id + 1) j ds)

    pub replies-IsMap : (s : S) (id : ℕ) (ds : List Message) → IsMap (replies s (numbered id ds))
    unfolding replies numbered
    replies-IsMap s id [] = tt
    replies-IsMap s id (d ∷ ds) =
        let s' = (receive s d.headers).0.0 in
        (replies-lookup s' (id + 1) id ds (omega arith), replies-IsMap s' (id + 1) ds)

    pub contains-keys-replies :
        (s : S) (id j : ℕ) (ds : List Message)
        → contains j (keys (replies s (numbered id ds))) ≡ (leb id j && ltb j (id + length ds))
    unfolding replies numbered
    contains-keys-replies s id j [] = ground arith
    contains-keys-replies s id j (d ∷ ds) =
        ground (arith, ==_iff id j, contains-keys-replies (receive s d.headers).0.0 (id + 1) j ds)

    length-marshal :
        (d : Message) (err : Option Error)
        → length (marshal enc (record d { err = err })) + 4
          ≡ length (marshal enc (record d { err = none })) + length (put_error enc err)
    unfolding marshal put_uint32
    length-marshal d err = omega (
      arith,
      length-append (put_headers enc d.headers) (put_sized d.payload ++ put_error enc err),
      length-append (put_headers enc d.headers) (put_sized d.payload ++ put_error enc none),
      length-append (put_sized d.payload) (put_error enc err),
      length-append (put_sized d.payload) (put_error enc none),
    )

    -- the messages of errors fit into an `int32`
    abbrev pub ErrorsFit : Type 0
    ErrorsFit =
        (s : S) (h : Dict String String) (e : Error)
        → (receive s h).1 ≡ some e
        → Fits (enc.bytes (enc.message e))

    length-put_error :
        (o : Option Error)
        → ((e : Error) → o ≡ some e → Fits (enc.bytes (enc.message e)))
        → length (put_error enc o) < 2 ^ 31 + 4
    unfolding put_uint32
    length-put_error none fits = omega arith
    length-put_error (some e) fits = omega (arith, fits e refl)

    pub replies-IsResponse :
        (s : S) (id : ℕ) (ds : List Message)
        → id + length ds ≤ 2 ^ 32
        → All (λ d. (length (marshal enc d) ≤ 65536) × (d.err ≡ none)) ds
        → ErrorsFit
        → All IsResponse (replies s (numbered id ds))
    unfolding replies numbered
    replies-IsResponse s id [] small fine fits = tt
    replies-IsResponse s id (d ∷ ds) small ((limited, plain), fine) fits =
        let (s', err) = receive s d.headers in
        let plain' = ap (λ (e : Option Error). length (marshal enc (record d { err = e }))) plain in
        let sum = length-marshal d err in
        let small_error = length-put_error err (fits s d.headers) in
        (
          (omega arith, omega (arith, limited, plain', sum, small_error)),
          replies-IsResponse s'.0 (id + 1) ds (omega arith) fine fits,
        )
