-- ===== src/Store/Migrations.antt =====
-- `NotifyMigration` and `RegisterMigrationListener` of pkg/yapr/core/store/impl/impl.go: the message
-- of a migration, and what a listener reads of it.
use Prim.Native.Char.{Char}
use yapr.Prelude.{◌<◌, ◌^◌, String, List, [], ◌∷◌, Option, none, some, ◌≡◌, refl, ap, ◌∙◌}
use yapr.Endpoint.{Endpoint, to_string, endpoint_from_string}
use yapr.Endpoint.Print.{endpoint_from_string-to_string}
use yapr.Text.{concat, concat-singleton}
use yapr.Text.Decimal.{format-Lacks}
use yapr.Text.Split.{split, Lacks, split_lacking, split-concat, concat-Lacks}

-- The arguments of the listener.
pub record Migration : Type 0 where
  pub selector : String
  pub value : String
  pub source : Option Endpoint
  pub target : Option Endpoint

unfoldable pub migration_message : String → String → Endpoint → Endpoint → String
migration_message selector value source target = concat selector (
    concat " "
      (concat value (concat " " (concat (to_string source) (concat " " (to_string target))))))

abbrev of_words : List String → Option Migration
of_words (selector ∷ value ∷ source ∷ target ∷ []) = some (record {
  selector = selector;
  value = value;
  source = endpoint_from_string source;
  target = endpoint_from_string target;
})
of_words words = none

unfoldable pub parse_migration : String → Option Migration
parse_migration message = of_words (split b' ' message)

abbrev space : Char
space = " "

to_string-Lacks : (e : Endpoint) → Lacks b' ' e.ip → Lacks b' ' e.pod → Lacks b' ' (to_string e)
unfolding to_string
to_string-Lacks e ip pod = concat-Lacks b' ' e.ip _ ip (
    concat-Lacks b' ' "#" _ (refl, tt)
      (concat-Lacks b' ' e.pod _ pod
        (concat-Lacks b' ' "#" _ (refl, tt) (format-Lacks b' ' e.port refl))))

-- one piece in front of the rest of the message
split-piece :
    (a b : String) → Lacks b' ' a → split b' ' (concat a (concat " " b)) ≡ a ∷ split b' ' b
split-piece a b plain =
    ap (λ t. split b' ' (concat a t)) (concat-singleton space b) ∙ split-concat space a b plain

-- An endpoint whose text is read back, and does not hold a space.
abbrev pub IsPlain : Endpoint → Type 0
IsPlain e =
    Lacks b' ' e.ip × Lacks b' ' e.pod × Lacks b'#' e.ip × Lacks b'#' e.pod × (e.port < 2 ^ 32)

pub read : (e : Endpoint) → IsPlain e → endpoint_from_string (to_string e) ≡ some e
read e (ip, pod, ip', pod', port) = endpoint_from_string-to_string e ip' pod' port

-- Where the selector's name and the header's value hold no space, and the endpoints no space and no
-- `#`, with ports of 32 bits, the listener reads what was notified.
pub parse_migration-migration_message :
    (selector value : String) (source target : Endpoint)
    → Lacks b' ' selector
    → Lacks b' ' value
    → IsPlain source
    → IsPlain target
    → parse_migration (migration_message selector value source target)
      ≡ some (record {
        selector = selector;
        value = value;
        source = some source;
        target = some target;
      })
unfolding parse_migration migration_message
parse_migration-migration_message selector value source target s v from to =
    ap of_words pieces ∙ rw (read source from, read target to) refl
  where
    pieces :
        split b' ' (migration_message selector value source target)
        ≡ selector ∷ value ∷ to_string source ∷ to_string target ∷ []
    pieces =
        split-piece selector _ s
        ∙ ap (◌∷◌ selector) (
            split-piece value _ v
            ∙ ap (◌∷◌ value) (
                split-piece (to_string source) _ (to_string-Lacks source from.0 from.1)
                ∙ ap (◌∷◌ (to_string source))
                    (split_lacking b' ' (to_string target) (to_string-Lacks target to.0 to.1))))
