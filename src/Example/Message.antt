-- ===== src/Example/Message.antt =====
-- cmd/example/echo-tcp/common.go: the message that the client and the server of the example send.
pub mod RoundTrip
pub mod Returns
use yapr.Prelude.{
  ℕ, zero, suc, ◌^◌, String, string_eq, List, [], ◌∷◌, ◌++◌, length, ltb, if◌then◌else◌, Bool, true,
  false, ◌&&◌, Option, none, some,
}
use yapr.Prelude.Dict.{Dict, insert}
use yapr.Errcode.{Error, coded, other, ErrWithCode}
use yapr.Go.{Go, ok, ◌>>=◌}
use yapr.Example.Bytes.{Bytes, put_uint32, read_uint32, read_buffer, make_length}

-- What the language and its library give: the bytes of a text and the text of bytes, `err.Error()`,
-- `UnmarshalError`, which reads JSON, and `fmt.Errorf` of a text without arguments.
pub record Encoding : Type 0 where
  pub bytes : String → Bytes
  pub text : Bytes → String
  pub message : Error → String
  pub unmarshal_error : String → Option ErrWithCode
  pub errorf : String → String

-- `Data`
pub record Message : Type 0 where
  pub headers : Dict String String
  pub payload : Bytes
  pub err : Option Error

-- a length and the bytes
abbrev pub put_sized : Bytes → Bytes
put_sized b = put_uint32 (length b) ++ b

module _ (enc : Encoding) where
  open enc use {bytes, text, message, unmarshal_error, errorf}

  unfoldable pub put_headers : Dict String String → Bytes
  put_headers [] = []
  put_headers ((key, value) ∷ headers) =
      put_sized (bytes key) ++ (put_sized (bytes value) ++ put_headers headers)

  abbrev pub put_error : Option Error → Bytes
  put_error none = put_uint32 0
  put_error (some err) = put_sized (bytes (message err))

  -- `Marshal`
  unfoldable pub marshal : Message → Bytes
  marshal d =
      put_uint32 (length d.headers)
      ++ (put_headers d.headers ++ (put_sized d.payload ++ put_error d.err))

  -- a length, a buffer of it, and what is read into the buffer
  unfoldable pub read_sized : Bytes → Go (Bytes × Bytes)
  read_sized b = do n ← make_length (read_uint32 b).0; ok (read_buffer n (read_uint32 b).1)

  -- The rounds that are left; a count that is negative as an `int32` makes none.
  unfoldable pub read_each_header : ℕ → Dict String String → Bytes → Go (Dict String String × Bytes)
  read_each_header zero headers b = ok (headers, b)
  read_each_header (suc left) headers b = read_sized b >>= λ key. read_sized key.1 >>= λ value.
      read_each_header left (insert (text key.0) (text value.0) headers) value.1

  abbrev pub header_rounds : ℕ → ℕ
  header_rounds w = if ltb w (2 ^ 31) then w else 0

  abbrev pub received_error : String → Option ErrWithCode → Error
  received_error msg none = other (errorf msg)
  received_error msg (some e) = coded e

  -- The error behind its length, which must be above 0 as an `int32`.
  abbrev pub read_error : ℕ × Bytes → Option Error
  read_error (w, b) =
      let msg = text (read_buffer w b).0 in
      if ltb 0 w && ltb w (2 ^ 31) then some (received_error msg (unmarshal_error msg)) else none

  -- `UnmarshalData`
  unfoldable pub unmarshal_data : Bytes → Go Message
  unmarshal_data b =
      read_each_header (header_rounds (read_uint32 b).0) [] (read_uint32 b).1 >>= λ headers.
      read_sized headers.1 >>= λ payload. ok (record {
        headers = headers.0;
        payload = payload.0;
        err = read_error (read_uint32 payload.1);
      })
