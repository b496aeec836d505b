-- ===== src/Example/Bytes.antt =====
-- What the programs of cmd/example/echo-tcp take from encoding/binary, bytes and io: numbers of 32
-- bits in little endian, and reads that fill a buffer. A slice of bytes is a list of numbers.
use yapr.Prelude.{
  ℕ, zero, suc, ◌+◌, ◌*◌, ◌/◌, ◌%◌, ◌^◌, ◌<◌, List, [], ◌∷◌, ◌++◌, ◌≡◌, refl, ap, arith, length,
  Option-cases, inl, inr, ltb, if◌then◌else◌, Option, none, some,
}
use yapr.Go.{Go, ok, panic, length_out_of_range}

abbrev pub Bytes : Type 0
Bytes = List ℕ

-- `PutUint32`, and `binary.Write` of an `int32` or a `uint32`: what is above 32 bits is cut off.
unfoldable pub put_uint32 : ℕ → Bytes
put_uint32 n = n % 256 ∷ n / 256 % 256 ∷ n / 65536 % 256 ∷ n / 16777216 % 256 ∷ []

-- `LittleEndian.Uint32`
abbrev pub uint32_of : ℕ → ℕ → ℕ → ℕ → ℕ
uint32_of a b c d = a + 256 * b + 65536 * c + 16777216 * d

-- `binary.Read` of a number from a `bytes.Reader`: where fewer than four bytes are left, they are
-- taken and the number stays 0, which it was declared with.
unfoldable pub read_uint32 : Bytes → ℕ × Bytes
read_uint32 (a ∷ b ∷ c ∷ d ∷ rest) = (uint32_of a b c d, rest)
read_uint32 (a ∷ b ∷ c ∷ []) = (0, [])
read_uint32 (a ∷ b ∷ []) = (0, [])
read_uint32 (a ∷ []) = (0, [])
read_uint32 [] = (0, [])

-- `io.ReadFull` into four bytes and `Uint32`, if there are as many
unfoldable pub read_full_uint32 : Bytes → Option (ℕ × Bytes)
read_full_uint32 (a ∷ b ∷ c ∷ d ∷ rest) = some (uint32_of a b c d, rest)
read_full_uint32 (a ∷ b ∷ c ∷ []) = none
read_full_uint32 (a ∷ b ∷ []) = none
read_full_uint32 (a ∷ []) = none
read_full_uint32 [] = none

-- `Read` of a `bytes.Reader` into a new buffer of a length: what it lacks stays 0.
unfoldable pub read_buffer : ℕ → Bytes → Bytes × Bytes
read_buffer zero rest = ([], rest)
read_buffer (suc n) [] = (0 ∷ (read_buffer n []).0, [])
read_buffer (suc n) (b ∷ rest) = let more = read_buffer n rest in (b ∷ more.0, more.1)

-- `make([]byte, n)` for an `int32` that is given by its 32 bits
abbrev pub make_length : ℕ → Go ℕ
make_length w = if ltb w (2 ^ 31) then ok w else panic length_out_of_range

abbrev pub behind_byte : ℕ → Option (Bytes × Bytes) → Option (Bytes × Bytes)
behind_byte b none = none
behind_byte b (some (read, rest)) = some (b ∷ read, rest)

-- `io.ReadFull` into a buffer of a length, if there are as many bytes
unfoldable pub read_full : ℕ → Bytes → Option (Bytes × Bytes)
read_full zero rest = some ([], rest)
read_full (suc n) [] = none
read_full (suc n) (b ∷ rest) = behind_byte b (read_full n rest)

pub length-put_uint32 : (n : ℕ) → length (put_uint32 n) ≡ 4
unfolding put_uint32
length-put_uint32 n = refl

pub read_uint32-put_uint32 :
    (n : ℕ) (rest : Bytes) → n < 2 ^ 32 → read_uint32 (put_uint32 n ++ rest) ≡ (n, rest)
unfolding read_uint32 put_uint32
read_uint32-put_uint32 n rest small = ap (λ (v : ℕ). (v, rest)) (omega arith)

pub read_full_uint32-put_uint32 :
    (n : ℕ) (rest : Bytes) → n < 2 ^ 32 → read_full_uint32 (put_uint32 n ++ rest) ≡ some (n, rest)
unfolding read_full_uint32 put_uint32
read_full_uint32-put_uint32 n rest small = ap (λ (v : ℕ). some (v, rest)) (omega arith)

pub length-read_full_uint32 :
    (b : Bytes) (n : ℕ) (rest : Bytes)
    → read_full_uint32 b ≡ some (n, rest)
    → length rest + 4 ≡ length b
unfolding read_full_uint32
length-read_full_uint32 (w ∷ x ∷ y ∷ z ∷ rest) n rest' h = ground arith
length-read_full_uint32 (x ∷ y ∷ z ∷ []) n rest' h = cc
length-read_full_uint32 (y ∷ z ∷ []) n rest' h = cc
length-read_full_uint32 (z ∷ []) n rest' h = cc
length-read_full_uint32 [] n rest' h = cc

pub length-read_full :
    (n : ℕ) (b read rest : Bytes) → read_full n b ≡ some (read, rest) → length rest + n ≡ length b
unfolding read_full
length-read_full zero b read rest h = ground arith
length-read_full (suc n) [] read rest h = cc
length-read_full (suc n) (x ∷ b) read rest h = elim (Option-cases (read_full n b)) [
  | inl out ↦ absurd (ground (arith, rw out at h))
  | inr ((read', rest'), is) ↦
      let found : some (x ∷ read', rest') ≡ some (read, rest) = rw is at h in
      ground (arith, length-read_full n b read' rest' is, found)
]

pub read_buffer-append :
    (written rest : Bytes) → read_buffer (length written) (written ++ rest) ≡ (written, rest)
unfolding read_buffer
read_buffer-append [] rest = refl
read_buffer-append (b ∷ written) rest =
    ap (λ (r : Bytes × Bytes). (b ∷ r.0, r.1)) (read_buffer-append written rest)

pub read_full-append :
    (written rest : Bytes) → read_full (length written) (written ++ rest) ≡ some (written, rest)
unfolding read_full
read_full-append [] rest = refl
read_full-append (b ∷ written) rest = rw (read_full-append written rest) refl
