-- ===== src/Errcode/Chain.antt =====
-- `UnmarshalError` (`decoded_error`), `As` and `Is` of pkg/yapr/core/errcode/errcode.go. An error is the
-- list of the messages that `Error` gives for it and for what `errors.Unwrap` finds in it, one after
-- the other; `read` is `json.Unmarshal` into an `ErrWithCode`.
use Prim.Native.Char.{code}
use yapr.Prelude.{
  String, nat_eq, Bool, true, false, List, [], ◌∷◌, ◌++◌, Option, none, some, ◌==◌, if◌then◌else◌,
  ◌≡◌, refl, inl, inr, Bool-cases, All,
}
use yapr.Errcode.{ErrWithCode}

abbrev pub Chain : Type 0
Chain = List String

-- `strings.HasPrefix(s, "{")`
abbrev pub has_brace : String → Bool
has_brace String.[] = false
has_brace (String.◌∷◌ c s) = code c == 123

module _ (read : String → Option ErrWithCode) where
  unfoldable pub decoded_error : String → Option ErrWithCode
  decoded_error s = read s

  abbrev pub or_next : Option ErrWithCode → Option ErrWithCode → Option ErrWithCode
  or_next none next = next
  or_next (some e) next = some e

  -- `As`
  unfoldable pub as_coded : Chain → Option ErrWithCode
  as_coded [] = none
  as_coded (s ∷ chain) =
      let next = as_coded chain in if has_brace s then or_next (read s) next else next

  abbrev pub same_code : ErrWithCode → Option ErrWithCode → Bool
  same_code e none = false
  same_code e (some target) = e.code == target.code

  -- `e.Is(target)`
  unfoldable pub is_target : ErrWithCode → Chain → Bool
  is_target e target = same_code e (as_coded target)

  -- no message that is taken for one of this package
  abbrev pub Plain : String → Type 0
  Plain s = (if has_brace s then read s else none) ≡ none

  -- Let an error wrap another, around which every message either has no brace in front or is no JSON of
  -- an error with a code, and let the message of the inner one be the JSON text of an error with a code.
  -- Then `As` finds it, and `Is` holds for exactly the errors with its code, whatever it wraps in turn.
  pub as_coded-wrapped :
      (around : Chain) (msg : String) (inside : Chain) (e f : ErrWithCode)
      → All Plain around
      → has_brace msg ≡ true
      → read msg ≡ some e
      → (as_coded (around ++ msg ∷ inside) ≡ some e)
        × (is_target f (around ++ msg ∷ inside) ≡ (f.code == e.code))
  unfolding as_coded is_target
  as_coded-wrapped [] msg inside e f plain brace is = (rw (brace, is) refl, rw (brace, is) refl)
  as_coded-wrapped (s ∷ around) msg inside e f (first, plain) brace is =
      let (found, tested) = as_coded-wrapped around msg inside e f plain brace is in
      elim (Bool-cases (has_brace s)) [
        | inl braced ↦
            let refused : read s ≡ none = rw braced at first in
            (rw (braced, refused) found, rw (braced, refused) tested)
        | inr bare ↦ (rw bare found, rw bare tested)
      ]
