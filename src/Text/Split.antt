-- ===== src/Text/Split.antt =====
-- `strings.Split(s, sep)` for a separator of one character, given by its code.
use Prim.Native.Char.{Char, code}
use Prim.Native.String.{◌++◌ as concat}
use text.Mathlib.TextLemmas.{nil-append, cons-append}
use yapr.Prelude.{ℕ, String, ◌≡◌, refl, false, List, [], ◌∷◌, ◌==◌, nat_eq, ==_refl, if◌then◌else◌}

-- puts a character in front of the first piece
abbrev pub push_char : Char → List String → List String
push_char c [] = String.◌∷◌ c String.[] ∷ []
push_char c (w ∷ ws) = String.◌∷◌ c w ∷ ws

unfoldable pub split : ℕ → String → List String
split sep String.[] = String.[] ∷ []
split sep (String.◌∷◌ c s) =
    let rest = split sep s in if code c == sep then String.[] ∷ rest else push_char c rest

-- The separator does not occur in the text.
abbrev pub Lacks : ℕ → String → Type 0
Lacks sep String.[] = Unit
Lacks sep (String.◌∷◌ c s) = ((code c == sep) ≡ false) × Lacks sep s

pub split_lacking : (sep : ℕ) (a : String) → Lacks sep a → split sep a ≡ a ∷ []
unfolding split
split_lacking sep String.[] h = refl
split_lacking sep (String.◌∷◌ c a) h = rw (h.0, split_lacking sep a h.1)

pub split-concat :
    (sep : Char) (a b : String)
    → Lacks (code sep) a
    → split (code sep) (concat a (String.◌∷◌ sep b)) ≡ a ∷ split (code sep) b
unfolding split
split-concat sep String.[] b h = rw nil-append (rw (==_refl (code sep)))
split-concat sep (String.◌∷◌ c a) b h =
    rw (cons-append c a (String.◌∷◌ sep b)) (rw (h.0, split-concat sep a b h.1))

pub concat-Lacks : (sep : ℕ) (a b : String) → Lacks sep a → Lacks sep b → Lacks sep (concat a b)
concat-Lacks sep String.[] b h k = rw nil-append k
concat-Lacks sep (String.◌∷◌ c a) b h k = rw (cons-append c a b) (h.0, concat-Lacks sep a b h.1 k)
