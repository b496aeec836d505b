-- ===== src/Text/Decimal.antt =====
-- `strconv`: `FormatUint` and `%d` in base 10, `ParseUint(s, 10, 32)` and `Atoi`.
use Prim.Native.Char.{Char, code}
use yapr.Text.Split.{Lacks}
use yapr.Prelude.{
  ℕ, zero, suc, ◌+◌, ◌-◌, ◌*◌, ◌/◌, ◌%◌, ◌^◌, ◌<◌, String, ◌≡◌, refl, inl, inr, Bool, true, false,
  ◌&&◌, ◌∙◌, ap, Option, none, some, arith, ltb, ltb→lt, lt→ltb, leb, ◌==◌, nat_eq, Bool-cases, [],
  ◌∷◌, get_elem?, or_default, if◌then◌else◌,
}

-- Go's `int`.
pub data ℤ : Type 0 where
  pos : ℕ → ℤ
  negsuc : ℕ → ℤ

digit_char : ℕ → Char
digit_char d =
    or_default (get_elem? ("0" ∷ "1" ∷ "2" ∷ "3" ∷ "4" ∷ "5" ∷ "6" ∷ "7" ∷ "8" ∷ "9" ∷ []) d) "0"

-- Each round divides by ten; the fuel is above the number.
format_loop : ℕ → ℕ → String → String
unfolding digit_char
format_loop zero n out = out
format_loop (suc f) n out =
    let rest = format_loop f (n / 10) (String.◌∷◌ (digit_char (n % 10)) out) in
    if ltb n 10 then String.◌∷◌ (digit_char n) out else rest

unfoldable pub format : ℕ → String
unfolding format_loop
format n = format_loop (suc n) n String.[]

abbrev pub is_digit : ℕ → Bool
is_digit c = leb 48 c && leb c 57

digits_value : ℕ → String → Option ℕ
digits_value n String.[] = some n
digits_value n (String.◌∷◌ c s) =
    if is_digit (code c) then digits_value (n * 10 + (code c - 48)) s else none

-- digits only, and at least one
unfoldable pub parse_digits : String → Option ℕ
unfolding digits_value
parse_digits String.[] = none
parse_digits (String.◌∷◌ c s) = digits_value 0 (String.◌∷◌ c s)

abbrev pub below : ℕ → Option ℕ → Option ℕ
below bound none = none
below bound (some v) = if ltb v bound then some v else none

-- `strconv.ParseUint(s, 10, 32)`
unfoldable pub parse_uint32 : String → Option ℕ
unfolding parse_digits
parse_uint32 s = below (2 ^ 32) (parse_digits s)

abbrev negate : ℕ → ℤ
negate zero = pos 0
negate (suc n) = negsuc n

abbrev as_pos : Option ℕ → Option ℤ
as_pos none = none
as_pos (some v) = some (pos v)

abbrev as_neg : Option ℕ → Option ℤ
as_neg none = none
as_neg (some v) = some (negate v)

-- `strconv.Atoi`: a sign may stand in front.
unfoldable pub atoi : String → Option ℤ
unfolding parse_digits
atoi String.[] = none
atoi (String.◌∷◌ c s) =
    if code c == b'-'
    then as_neg (below (2 ^ 63 + 1) (parse_digits s))
    else if code c == b'+'
    then as_pos (below (2 ^ 63) (parse_digits s))
    else as_pos (below (2 ^ 63) (parse_digits (String.◌∷◌ c s)))

-- The conversion `uint32(i)` wraps.
abbrev pub uint32 : ℤ → ℕ
uint32 (pos n) = n % 2 ^ 32
uint32 (negsuc n) = 2 ^ 32 - 1 - n % 2 ^ 32

digit_char_lem :
    (d : ℕ) → d < 10 → (is_digit (code (digit_char d)) ≡ true) × (code (digit_char d) - 48 ≡ d)
unfolding digit_char
digit_char_lem zero h = (refl, refl)
digit_char_lem (suc zero) h = (refl, refl)
digit_char_lem (suc (suc zero)) h = (refl, refl)
digit_char_lem (suc (suc (suc zero))) h = (refl, refl)
digit_char_lem (suc (suc (suc (suc zero)))) h = (refl, refl)
digit_char_lem (suc (suc (suc (suc (suc zero))))) h = (refl, refl)
digit_char_lem (suc (suc (suc (suc (suc (suc zero)))))) h = (refl, refl)
digit_char_lem (suc (suc (suc (suc (suc (suc (suc zero))))))) h = (refl, refl)
digit_char_lem (suc (suc (suc (suc (suc (suc (suc (suc zero)))))))) h = (refl, refl)
digit_char_lem (suc (suc (suc (suc (suc (suc (suc (suc (suc zero))))))))) h = (refl, refl)
digit_char_lem (suc (suc (suc (suc (suc (suc (suc (suc (suc (suc d)))))))))) h =
    absurd (omega arith)

digits_value-digit_char :
    (m d : ℕ) (out : String)
    → d < 10
    → digits_value m (String.◌∷◌ (digit_char d) out) ≡ digits_value (m * 10 + d) out
unfolding digits_value
digits_value-digit_char m d out h = let (ok, value) = digit_char_lem d h in rw (ok, value)

digits_value-format_loop :
    (f n : ℕ) (out : String) → n < f → digits_value 0 (format_loop f n out) ≡ digits_value n out
unfolding format_loop
digits_value-format_loop zero n out h = absurd (omega arith)
digits_value-format_loop (suc f) n out h = elim (Bool-cases (ltb n 10)) [
  | inl small ↦ rw small (
      digits_value-digit_char 0 n out (ltb→lt n 10 small)
      ∙ ap (λ v. digits_value v out) (omega arith))
  | inr big ↦ rw big (
      digits_value-format_loop f (n / 10) (String.◌∷◌ (digit_char (n % 10)) out) (ground arith)
      ∙ digits_value-digit_char (n / 10) (n % 10) out (omega arith)
      ∙ ap (λ v. digits_value v out) (omega arith))
]

-- Digits and nothing else.
abbrev pub AllDigits : String → Type 0
AllDigits String.[] = Unit
AllDigits (String.◌∷◌ c s) = (is_digit (code c) ≡ true) × AllDigits s

-- Digits, and at least one.
abbrev pub IsNumeral : String → Type 0
IsNumeral String.[] = ⊥
IsNumeral (String.◌∷◌ c s) = (is_digit (code c) ≡ true) × AllDigits s

digit-mod : (n : ℕ) → is_digit (code (digit_char (n % 10))) ≡ true
digit-mod n = (digit_char_lem (n % 10) (omega arith)).0

format_loop-IsNumeral : (f n : ℕ) (out : String) → IsNumeral out → IsNumeral (format_loop f n out)
unfolding format_loop
format_loop-IsNumeral zero n out h = h
format_loop-IsNumeral (suc f) n String.[] h = elim h [ ]
format_loop-IsNumeral (suc f) n (String.◌∷◌ c out) h = elim (Bool-cases (ltb n 10)) [
  | inl small ↦ rw small ((digit_char_lem n (ltb→lt n 10 small)).0, h)
  | inr big ↦ rw big (format_loop-IsNumeral f (n / 10) _ (digit-mod n, h))
]

pub format-IsNumeral : (n : ℕ) → IsNumeral (format n)
unfolding format format_loop
format-IsNumeral n = elim (Bool-cases (ltb n 10)) [
  | inl small ↦ rw small ((digit_char_lem n (ltb→lt n 10 small)).0, tt)
  | inr big ↦ rw big (format_loop-IsNumeral n (n / 10) _ (digit-mod n, tt))
]

parse_numeral : (s : String) → IsNumeral s → parse_digits s ≡ digits_value 0 s
unfolding parse_digits
parse_numeral String.[] h = elim h [ ]
parse_numeral (String.◌∷◌ c s) h = refl

-- Decimal digits are read back as the number that they were printed from.
pub parse_digits-format : (n : ℕ) → parse_digits (format n) ≡ some n
parse_digits-format n =
    parse_numeral (format n) (format-IsNumeral n)
    ∙ (unfold format digits_value in digits_value-format_loop (suc n) n String.[] (omega arith))

-- A numeral has no sign in front.
atoi_numeral : (s : String) → IsNumeral s → atoi s ≡ as_pos (below (2 ^ 63) (parse_digits s))
unfolding atoi
atoi_numeral String.[] h = elim h [ ]
atoi_numeral (String.◌∷◌ c s) h = ground (arith, h.0)

pub atoi-format : (n : ℕ) → n < 2 ^ 63 → atoi (format n) ≡ some (pos n)
atoi-format n h =
    atoi_numeral (format n) (format-IsNumeral n)
    ∙ rw (parse_digits-format n) (rw (lt→ltb n (2 ^ 63) h))

pub parse_uint32-format : (n : ℕ) → n < 2 ^ 32 → parse_uint32 (format n) ≡ some n
unfolding parse_uint32
parse_uint32-format n h = rw (parse_digits-format n) (rw (lt→ltb n (2 ^ 32) h))

pub parse_uint32-lt : (s : String) (n : ℕ) → parse_uint32 s ≡ some n → n < 2 ^ 32
unfolding parse_uint32
parse_uint32-lt s n h = ground arith

pub AllDigits-Lacks : (sep : ℕ) (s : String) → is_digit sep ≡ false → AllDigits s → Lacks sep s
AllDigits-Lacks sep String.[] no_digit h = tt
AllDigits-Lacks sep (String.◌∷◌ c s) no_digit h =
    (ground (arith, h.0), AllDigits-Lacks sep s no_digit h.1)

pub format-Lacks : (sep n : ℕ) → is_digit sep ≡ false → Lacks sep (format n)
format-Lacks sep n no_digit = IsNumeral-Lacks (format n) (format-IsNumeral n)
  where
    IsNumeral-Lacks : (s : String) → IsNumeral s → Lacks sep s
    IsNumeral-Lacks String.[] h = elim h [ ]
    IsNumeral-Lacks (String.◌∷◌ c s) h = AllDigits-Lacks sep (String.◌∷◌ c s) no_digit h
