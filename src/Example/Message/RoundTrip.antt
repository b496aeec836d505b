-- ===== src/Example/Message/RoundTrip.antt =====
-- A message is read back from its bytes.
use mathlib.Core.List.{append_assoc, append-nil}
use yapr.Prelude.{
  ◌^◌, ◌<◌, String, string_eq, ==_iff, [], ◌∷◌, ◌++◌, ◌≡◌, refl, sym, ap, ◌∙◌, arith, length,
  lt→ltb, false, Option, none, some, All, ◌==◌,
}
use yapr.Prelude.Dict.{Dict, lookup, insert, IsMap}
use yapr.Errcode.{Error, coded, other}
use yapr.Go.{ok}
use yapr.Example.Bytes.{
  Bytes, put_uint32, read_uint32, read_buffer, read_uint32-put_uint32, read_buffer-append,
}
use yapr.Example.Message.{
  Encoding, Message, put_sized, put_headers, put_error, marshal, read_sized, read_each_header,
  received_error, read_error, unmarshal_data,
}

-- `int32` holds the length.
abbrev pub Fits : Bytes → Type 0
Fits b = length b < 2 ^ 31

lookup-insert_behind :
    (k j : String) (v : String) (before after : Dict String String)
    → lookup j (before ++ (k, v) ∷ after) ≡ none
    → (j == k) ≡ false
unfolding lookup
lookup-insert_behind k j v [] after unset = ground (arith, ==_iff j k, ==_iff k j)
lookup-insert_behind k j v ((i, w) ∷ before) after unset =
    ground (arith, lookup-insert_behind k j v before after)

insert-behind :
    (k v : String) (before after : Dict String String)
    → IsMap (before ++ (k, v) ∷ after)
    → insert k v before ≡ before ++ (k, v) ∷ []
unfolding insert
insert-behind k v [] after h = refl
insert-behind k v ((i, w) ∷ before) after h =
    ground (arith, insert-behind k v before after h.1, lookup-insert_behind k i v before after h.0)

module _ (enc : Encoding) where
  open enc use {bytes, text, message, unmarshal_error, errorf}

  read_sized-put_sized :
      (b rest : Bytes) → Fits b → read_sized enc (put_sized b ++ rest) ≡ ok (b, rest)
  unfolding read_sized
  read_sized-put_sized b rest fits =
      let prefix = read_uint32-put_uint32 (length b) (b ++ rest) (omega arith) in
      rw (append_assoc (put_uint32 (length b)) b rest, prefix, lt→ltb (length b) (2 ^ 31) fits)
        (ap ok (read_buffer-append b rest))

  -- The texts of the headers are read back, and their lengths fit.
  abbrev pub Readable : String × String → Type 0
  Readable (key, value) =
      (text (bytes key) ≡ key)
      × (text (bytes value) ≡ value)
      × Fits (bytes key)
      × Fits (bytes value)

  read_each_header-put_headers :
      (before headers : Dict String String) (rest : Bytes)
      → IsMap (before ++ headers)
      → All Readable headers
      → read_each_header enc (length headers) before (put_headers enc headers ++ rest)
        ≡ ok (before ++ headers, rest)
  unfolding read_each_header put_headers
  read_each_header-put_headers before [] rest once fit =
      ap (λ (h : Dict String String). ok (h, rest)) (sym (append-nil before))
  read_each_header-put_headers before ((key, value) ∷ headers) rest once fit =
      let (key_back, value_back, key_fits, value_fits) = fit.0 in
      let behind = put_headers enc headers ++ rest in
      let bracketed =
        append_assoc (put_sized (bytes key)) (put_sized (bytes value) ++ put_headers enc headers)
          rest
        ∙ ap (λ (b : Bytes). put_sized (bytes key) ++ b)
            (append_assoc (put_sized (bytes value)) (put_headers enc headers) rest) in
      let first = read_sized-put_sized (bytes key) (put_sized (bytes value) ++ behind) key_fits in
      let second = read_sized-put_sized (bytes value) behind value_fits in
      let kept = insert-behind key value before headers once in
      let once' : IsMap ((before ++ (key, value) ∷ []) ++ headers) =
        rw (append_assoc before ((key, value) ∷ []) headers) once in
      let others =
        read_each_header-put_headers (before ++ (key, value) ∷ []) headers rest once' fit.1 in
      rw (bracketed, first, second, key_back, value_back, kept, others)
        (ap (λ (h : Dict String String). ok (h, rest))
          (append_assoc before ((key, value) ∷ []) headers))

  -- How a message of an error is read: JSON gives its code back, another text is the message.
  abbrev pub ReadsAs : Error → Type 0
  ReadsAs (coded e) = unmarshal_error (message (coded e)) ≡ some e
  ReadsAs (other m) = (message (other m) ≡ m) × (unmarshal_error m ≡ none) × (errorf m ≡ m)

  abbrev pub ReadableError : Option Error → Type 0
  ReadableError none = Unit
  ReadableError (some err) =
      ReadsAs err
      × (text (bytes (message err)) ≡ message err)
      × (0 < length (bytes (message err)))
      × Fits (bytes (message err))

  received_error-ReadsAs :
      (err : Error)
      → ReadsAs err
      → received_error enc (message err) (unmarshal_error (message err)) ≡ err
  received_error-ReadsAs (coded e) reads = rw reads refl
  received_error-ReadsAs (other m) (plain, refused, unformatted) =
      rw (plain, refused) (ap other unformatted)

  read_error-put_error :
      (err : Option Error)
      → ReadableError err
      → read_error enc (read_uint32 (put_error enc err)) ≡ err
  read_error-put_error none readable = unfold read_uint32 put_uint32 in refl
  read_error-put_error (some err) (reads, back, some_bytes, fits) =
      let written = bytes (message err) in
      let whole : read_buffer (length written) written ≡ (written, []) =
        rw (append-nil written) at (read_buffer-append written []) in
      let prefix = read_uint32-put_uint32 (length written) written (omega arith) in
      rw
        (
          prefix,
          lt→ltb 0 (length written) some_bytes,
          lt→ltb (length written) (2 ^ 31) fits,
          whole,
          back,
        )
        (ap some (received_error-ReadsAs err reads))

  -- Let each key stand once in the headers, let every length and the number of headers fit into an
  -- `int32`, and let the texts be read back from their bytes. Where the message has an error, let it
  -- have a message that is not empty, which is JSON exactly if the error has a code, and which
  -- `Errorf` leaves as it is. Then `UnmarshalData` of the bytes of `Marshal` gives the message back.
  pub unmarshal_data-marshal :
      (d : Message)
      → IsMap d.headers
      → length d.headers < 2 ^ 31
      → All Readable d.headers
      → Fits d.payload
      → ReadableError d.err
      → unmarshal_data enc (marshal enc d) ≡ ok d
  unfolding unmarshal_data marshal
  unmarshal_data-marshal d once few readable fits error_readable =
      let behind = put_sized d.payload ++ put_error enc d.err in
      let count =
        read_uint32-put_uint32 (length d.headers) (put_headers enc d.headers ++ behind)
          (omega arith) in
      let headers = read_each_header-put_headers [] d.headers behind once readable in
      let payload = read_sized-put_sized d.payload (put_error enc d.err) fits in
      let err = read_error-put_error d.err error_readable in
      rw (count, lt→ltb (length d.headers) (2 ^ 31) few, headers, payload)
        (ap (λ (e : Option Error). ok (record d { err = e })) err)
