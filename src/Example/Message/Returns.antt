-- ===== src/Example/Message/Returns.antt =====
-- A message is read from any bytes, or the process panics at a length below 0.
use yapr.Prelude.{ℕ, zero, suc, ◌^◌, String, string_eq, [], ltb, ◌≡◌, refl, inl, inr, Bool-cases}
use yapr.Prelude.Dict.{Dict}
use yapr.Go.{Go, ok, panic, deadlock, length_out_of_range, ◌>>=◌}
use yapr.Example.Bytes.{Bytes, read_uint32}
use yapr.Example.Message.{Encoding, read_sized, read_each_header, header_rounds, unmarshal_data}

-- The call returns such a value, or panics at a length below 0.
abbrev pub Returns : {A : Type 0} → (A → Type 0) → Go A → Type 0
Returns P (ok a) = P a
Returns P (panic p) = p ≡ length_out_of_range
Returns P deadlock = ⊥

abbrev pub Any : {A : Type 0} → A → Type 0
Any a = Unit

pub >>=-Returns :
    {A B : Type 0} (P : A → Type 0) (Q : B → Type 0) (m : Go A) (f : A → Go B)
    → Returns P m
    → ((a : A) → P a → Returns Q (f a))
    → Returns Q (m >>= f)
>>=-Returns P Q (ok a) f h each = each a h
>>=-Returns P Q (panic p) f h each = h
>>=-Returns P Q deadlock f h each = elim h [ ]

module _ (enc : Encoding) where
  read_sized-Returns : (b : Bytes) → Returns Any (read_sized enc b)
  unfolding read_sized
  read_sized-Returns b = elim (Bool-cases (ltb (read_uint32 b).0 (2 ^ 31))) [
    | inl fits ↦ rw fits tt
    | inr negative ↦ rw negative refl
  ]

  read_each_header-Returns :
      (n : ℕ) (headers : Dict String String) (b : Bytes)
      → Returns Any (read_each_header enc n headers b)
  unfolding read_each_header
  read_each_header-Returns zero headers b = tt
  read_each_header-Returns (suc n) headers b =
      >>=-Returns Any Any (read_sized enc b) _ (read_sized-Returns b) λ key _.
        >>=-Returns Any Any (read_sized enc key.1) _ (read_sized-Returns key.1)
          λ value _. read_each_header-Returns n _ value.1

  -- `UnmarshalData` of any bytes returns a message, or panics at a length below 0.
  pub unmarshal_data-Returns : (b : Bytes) → Returns Any (unmarshal_data enc b)
  unfolding unmarshal_data
  unmarshal_data-Returns b =
      >>=-Returns Any Any (read_each_header enc (header_rounds enc (read_uint32 b).0) [] _) _
        (read_each_header-Returns (header_rounds enc (read_uint32 b).0) [] _)
        λ headers _.
          >>=-Returns Any Any (read_sized enc headers.1) _ (read_sized-Returns headers.1)
            λ payload _. tt
