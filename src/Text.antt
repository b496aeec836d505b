-- ===== src/Text.antt =====
-- Go's `string` as a text, with what the program takes from the standard library: `+`,
-- `strings.Split` at one character, and numbers in decimal (`Decimal`).
pub mod Decimal
pub mod Split
use yapr.Prelude.{String, ◌≡◌, ◌∙◌, ap}
use text.Mathlib.TextLemmas.{nil-append, cons-append}
use Prim.Native.Char.{Char}
pub use Prim.Native.String.{◌++◌ as concat}

-- A separator of one character, put in front.
pub concat-singleton : (c : Char) (s : String) → concat (String.◌∷◌ c String.[]) s ≡ String.◌∷◌ c s
concat-singleton c s = cons-append c String.[] s ∙ ap (String.◌∷◌ c) (nil-append s)
