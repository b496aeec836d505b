-- ===== src/Router/Target.antt =====
-- `parseTarget` of pkg/yapr/core/router.go. The messages of its errors are left out.
use yapr.Prelude.{ℕ, ◌<◌, ◌^◌, String, List, [], ◌∷◌, Option, none, some, ◌≡◌, refl, ap, ◌∙◌}
use yapr.Text.{concat, concat-singleton}
use yapr.Text.Split.{split, Lacks, split_lacking, split-concat}
use yapr.Text.Decimal.{format, parse_uint32, parse_uint32-format, format-Lacks}

abbrev with_port : String → Option ℕ → Option (String × ℕ)
with_port name none = none
with_port name (some port) = some (name, port)

-- `strings.Split` returns one piece at least.
abbrev of_pieces : String → List String → Option (String × ℕ)
of_pieces target [] = none
of_pieces target (name ∷ []) = some (target, 9090)
of_pieces target (name ∷ port ∷ []) = with_port name (parse_uint32 port)
of_pieces target (name ∷ port ∷ more ∷ rest) = none

unfoldable pub parse_target : String → Option (String × ℕ)
parse_target target = of_pieces target (split b':' target)

split-target :
    (name : String) (port : ℕ)
    → Lacks b':' name
    → split b':' (concat name (concat ":" (format port))) ≡ name ∷ format port ∷ []
split-target name port plain =
    ap (λ t. split b':' (concat name t)) (concat-singleton ":" (format port))
    ∙ split-concat ":" name _ plain
    ∙ ap (◌∷◌ name) (split_lacking b':' _ (format-Lacks b':' port refl))

-- A name without a colon is read back with its port, if the port is below 2 ^ 32, and by itself it
-- gets the port 9090.
pub parse_target-format :
    (name : String) (port : ℕ)
    → Lacks b':' name
    → port < 2 ^ 32
    → (parse_target (concat name (concat ":" (format port))) ≡ some (name, port))
      × (parse_target name ≡ some (name, 9090))
unfolding parse_target
parse_target-format name port plain bound = (
  rw (split-target name port plain) (rw (parse_uint32-format port bound) refl),
  rw (split_lacking b':' name plain) refl,
)
