-- ===== src/Example/Server/Ends.antt =====
-- The reading loop of the server comes to an end, whatever the client sends.
use yapr.Prelude.{ℕ, ◌+◌, string_eq, Bool, true, false, Option, none, some, length, leb, ◌≡◌}
use yapr.Go.{Go, ok, panic, deadlock, Panic, length_out_of_range, nil_dereference}
use yapr.Example.Bytes.{Bytes}
use yapr.Example.Message.{Encoding, Message}
use yapr.Example.Message.Returns.{Returns}
use yapr.Example.Server.{Connection, Ending, closed, stopped, blocked, unfinished, Receiver}

-- An end of the code: an exit of the loop, or a wait at the channel after 1000 responses more than the
-- writing loop takes.
abbrev pub has_ended : Option ℕ → ℕ → Ending → Bool
has_ended writes n closed = true
has_ended writes n stopped = true
has_ended none n blocked = false
has_ended (some writes) n blocked = leb (writes + 1001) n
has_ended writes n unfinished = false

abbrev pub is_of_request : Panic → Bool
is_of_request length_out_of_range = true
is_of_request nil_dereference = true
is_of_request _ = false

module _ {S : Type 0} (enc : Encoding) (receive : Receiver S) (writes : Option ℕ) where
  -- The loop comes to an end of the code, or panics at a length or at an endpoint.
  abbrev pub Ends : Go (Connection S × Ending) → Type 0
  Ends (ok (c, e)) = has_ended writes (length c.responses) e ≡ true
  Ends (panic p) = is_of_request p ≡ true
  Ends deadlock = ⊥
