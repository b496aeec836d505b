-- ===== src/Strategy/Hash.antt =====
-- pkg/yapr/core/strategy/util.go: `HashString`, over the checksum of the standard library. A text is its
-- bytes.
use yapr.Prelude.{
  ℕ, zero, suc, ◌≤◌, List, [], ◌∷◌, length, ltb, ltb→lt, if◌then◌else◌, ◌≡◌, refl, ap, arith, inl,
  inr, Bool-cases,
}

unfoldable pub zeros : ℕ → List ℕ
zeros zero = []
zeros (suc n) = 0 ∷ zeros n

-- `copy(dst, src)`
unfoldable pub copied : List ℕ → List ℕ → List ℕ
copied [] src = []
copied (x ∷ dst) [] = x ∷ dst
copied (x ∷ dst) (b ∷ src) = b ∷ copied dst src

-- `scratch[:n]`
unfoldable pub take : ℕ → List ℕ → List ℕ
take zero b = []
take (suc n) [] = []
take (suc n) (x ∷ b) = x ∷ take n b

unfoldable pub hash_string : (List ℕ → ℕ) → List ℕ → ℕ
hash_string checksum s =
    if ltb (length s) 64 then checksum (take (length s) (copied (zeros 64) s)) else checksum s

take-copied : (n : ℕ) (s : List ℕ) → length s ≤ n → take (length s) (copied (zeros n) s) ≡ s
unfolding take copied zeros
take-copied n [] fits = refl
take-copied zero (b ∷ s) fits = absurd (omega arith)
take-copied (suc n) (b ∷ s) fits = ap (◌∷◌ b) (take-copied n s (omega arith))

-- A short text, which goes through the array, has the checksum of its own bytes, as a long one does.
pub hash_string_lem : (checksum : List ℕ → ℕ) (s : List ℕ) → hash_string checksum s ≡ checksum s
unfolding hash_string
hash_string_lem checksum s = elim (Bool-cases (ltb (length s) 64)) [
  | inl short ↦
      let fits : length s ≤ 64 = omega (arith, ltb→lt (length s) 64 short) in
      rw short (ap checksum (take-copied 64 s fits))
  | inr long ↦ rw long refl
]
