-- ===== src/Example/Stress.antt =====
-- cmd/example/stress/server/main.go: a connection whose requests are answered one at a time, without ids.
use mathlib.Core.List.{append_assoc}
use yapr.Prelude.{
  ℕ, zero, suc, ◌^◌, ◌<◌, ◌≤◌, false, List, [], ◌∷◌, ◌++◌, Option, none, some, length, ltb, lt→ltb,
  if◌then◌else◌, ◌≡◌, refl, arith, All,
}
use yapr.Go.{Go, ok, panic, length_out_of_range, ◌>>=◌}
use yapr.Example.Bytes.{
  Bytes, put_uint32, read_full_uint32, read_full, read_full_uint32-put_uint32, read_full-append,
}
use yapr.Example.Message.{Encoding, Message, put_sized, marshal, unmarshal_data}
use yapr.Example.Message.RoundTrip.{unmarshal_data-marshal}
use yapr.Example.Server.{Ending, closed, unfinished, Receiver, answer_bytes, after_sent}
use yapr.Example.Server.Serves.{IsSendable}

-- The process, what has been written, and how the loop ended; each exit closes the connection.
abbrev pub Handled : Type 0 → Type 0
Handled S = S × Bytes × Ending

abbrev pub behind_bytes : {S : Type 0} → Bytes → Handled S → Handled S
behind_bytes b (s, more, e) = (s, b ++ more, e)

module _ {S : Type 0} (enc : Encoding) (receive : Receiver S) where
  -- `next` goes on with the writes that are left.
  abbrev pub answered_one :
      (ℕ → S → Bytes → Go (Handled S)) → ℕ → S → Message → Bytes → Go (Handled S)
  answered_one next zero s d rest = ok ((receive s d.headers).0.0, [], closed)
  answered_one next (suc writes) s d rest =
      let ((s', sent), err) = receive s d.headers in
      next writes (after_sent sent s') rest >>= λ handled.
      ok (behind_bytes (put_sized (answer_bytes enc receive d err)) handled)

  abbrev pub data_read :
      (ℕ → S → Bytes → Go (Handled S)) → ℕ → S → Option (Bytes × Bytes) → Go (Handled S)
  data_read next writes s none = ok (s, [], closed)
  data_read next writes s (some (content, rest)) =
      unmarshal_data enc content >>= λ d. answered_one next writes s d rest

  abbrev pub size_checked :
      (ℕ → S → Bytes → Go (Handled S)) → ℕ → S → Option (ℕ × Bytes) → Go (Handled S)
  size_checked next writes s none = ok (s, [], closed)
  size_checked next writes s (some (w, rest)) =
      if ltb w (2 ^ 31)
      then (if ltb 65536 w then ok (s, [], closed) else data_read next writes s (read_full w rest))
      else panic length_out_of_range

  -- `handleConnection` over all that a client writes, where a number of responses are written before a
  -- write fails.
  unfoldable pub handle_connection : ℕ → ℕ → S → Bytes → Go (Handled S)
  handle_connection zero writes s b = ok (s, [], unfinished)
  handle_connection (suc rounds) writes s b =
      size_checked (λ w s' rest. handle_connection rounds w s' rest) writes s (read_full_uint32 b)

  -- One request after the other, each response sent before the next request is read.
  unfoldable pub handled_all : S → List Message → Handled S
  handled_all s [] = (s, [], closed)
  handled_all s (d ∷ ds) =
      let ((s', sent), err) = receive s d.headers in
      behind_bytes (put_sized (answer_bytes enc receive d err))
        (handled_all (after_sent sent s') ds)

  unfoldable pub messages_bytes : List Message → Bytes
  messages_bytes [] = []
  messages_bytes (d ∷ ds) = put_sized (marshal enc d) ++ messages_bytes ds

  -- More rounds than messages, on a connection that takes a response for each, answer them all, each
  -- with its own message and the error that `OnRequestReceived` gave for it, call the function it
  -- returned before the next message is read, and then end. Each message can be read back and has at
  -- most 65536 bytes.
  pub handle_connection-messages_bytes :
      (rounds writes : ℕ) (s : S) (ds : List Message)
      → All (IsSendable enc) ds
      → length ds < rounds
      → length ds ≤ writes
      → handle_connection rounds writes s (messages_bytes ds) ≡ ok (handled_all s ds)
  unfolding handle_connection messages_bytes handled_all
  handle_connection-messages_bytes zero writes s ds fine enough able = absurd (omega arith)
  handle_connection-messages_bytes (suc rounds) writes s [] fine enough able =
      unfold read_full_uint32 in refl
  handle_connection-messages_bytes (suc rounds) zero s (d ∷ ds) fine enough able =
      absurd (omega arith)
  handle_connection-messages_bytes (suc rounds) (suc writes) s (d ∷ ds) (sendable, fine) enough
        able =
      let bytes = marshal enc d in
      let behind = messages_bytes ds in
      let sized = append_assoc (put_uint32 (length bytes)) bytes behind in
      let size =
        read_full_uint32-put_uint32 (length bytes) (bytes ++ behind)
          (omega (arith, sendable.within_limit)) in
      let fits = lt→ltb (length bytes) (2 ^ 31) (omega (arith, sendable.within_limit)) in
      let limited : ltb 65536 (length bytes) ≡ false = ground (arith, sendable.within_limit) in
      let message =
        unmarshal_data-marshal enc d sendable.once sendable.few sendable.headers_readable
          sendable.payload_fits sendable.error_readable in
      let ((s', sent), err) = receive s d.headers in
      let others =
        handle_connection-messages_bytes rounds writes (after_sent sent s') ds fine
          (omega (arith, enough)) (omega (arith, able)) in
      rw (sized, size, fits, limited, read_full-append bytes behind, message, others) refl
