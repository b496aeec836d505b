-- ===== src/Store/Config.antt =====
-- `LoadConfig`, `GetRouter` and `GetSelectors` of pkg/yapr/core/store/impl/impl.go, and `YaprConfig`
-- of pkg/yapr/core/config/config.go. The cluster's lock makes `LoadConfig` one step; `json.Marshal`
-- and `json.Unmarshal` are parameters.
pub mod Loaded
use Prim.Native.Nat.{Ordering}
use Prim.Native.String.{compare}
use yapr.Prelude.{
  String, Bool, true, false, List, [], ◌∷◌, ◌++◌, Option, none, some, map, string_eq, if◌then◌else◌,
}
use yapr.Prelude.Dict.{Dict, insert}
use yapr.Errcode.{Error, coded, Result, success, failure, err_router_not_found}
use yapr.Types.{Router, Selector}
use yapr.Text.{concat}
use yapr.Store.Etcd.{Etcd}

pub record YaprConfig : Type 0 where
  pub version : String
  pub routers : List Router
  pub selectors : List Selector

-- `s >= t` on strings: by bytes
abbrev pub at_least : String → String → Bool
at_least s t = elim (compare s t) [ Ordering.lt ↦ false | _ ↦ true ]

abbrev pub selector_key : String → String
selector_key name = concat "slt/" name

abbrev pub router_key : String → String
router_key name = concat "rtr/" name

-- `strings.TrimPrefix(key, "slt/")`, for a key with the prefix
abbrev pub drop_four : String → String
drop_four (String.◌∷◌ a (String.◌∷◌ b (String.◌∷◌ c (String.◌∷◌ d s)))) = s
drop_four s = s

module _ {E : Type 0} where
  abbrev pub unless_failed : Option Error → E → (E → E × Option Error) → E × Option Error
  unless_failed none s next = next s
  unless_failed (some err) s next = (s, some err)

  -- `if err != nil { return err }`
  abbrev pub and_then : E × Option Error → (E → E × Option Error) → E × Option Error
  and_then result next = unless_failed result.1 result.0 next

module _ (encode_selector : Selector → Result String) (encode_router : Router → Result String) where
  abbrev pub selector_entries : YaprConfig → List (String × Result String)
  selector_entries c = map (λ x. (selector_key x.name, encode_selector x)) c.selectors

  abbrev pub router_entries : YaprConfig → List (String × Result String)
  router_entries c = map (λ x. (router_key x.name, encode_router x)) c.routers

module _ {E : Type 0} (etcd : Etcd E) where
  -- A loop of `LoadConfig`: what cannot be encoded is left out, and a failing `Put` ends it.
  unfoldable pub put_all : List (String × Result String) → E → E × Option Error
  put_all [] s = (s, none)
  put_all ((key, failure err) ∷ rest) s = put_all rest s
  put_all ((key, success json) ∷ rest) s = and_then (etcd.put s key json) (λ s'. put_all rest s')

  module _ (encode_selector : Selector → Result String)
      (encode_router : Router → Result String) where
    unfoldable pub write_config : YaprConfig → E → E × Option Error
    write_config c s =
        and_then (put_all (selector_entries encode_selector encode_router c) s) (λ s'.
          and_then (put_all (router_entries encode_selector encode_router c) s')
            (λ s''. etcd.put s'' "version" c.version))

    abbrev pub by_version : YaprConfig → E → Result (Option String) → E × Option Error
    by_version c s (failure err) = (s, some err)
    by_version c s (success none) = write_config c s
    by_version c s (success (some version)) =
        let written = write_config c s in if at_least version c.version then (s, none) else written

    unfoldable pub load_config : YaprConfig → E → E × Option Error
    load_config c s = by_version c s (etcd.get s "version")

  abbrev pub decoded : (String → Result Router) → Result (Option String) → Result Router
  decoded decode (failure err) = failure err
  decoded decode (success none) = failure (coded err_router_not_found)
  decoded decode (success (some json)) = decode json

  unfoldable pub get_router : (String → Result Router) → E → String → Result Router
  get_router decode s name = decoded decode (etcd.get s (router_key name))

  -- the loop of `GetSelectors`
  unfoldable pub decode_all :
      (String → Result Selector)
      → Dict String String
      → Dict String Selector
      → Result (Dict String Selector)
  decode_all decode [] selectors = success selectors
  decode_all decode ((key, json) ∷ rest) selectors = elim (decode json) [
    | failure err ↦ failure err
    | success selector ↦ decode_all decode rest (insert (drop_four key) selector selectors)
  ]

  abbrev all_decoded :
      (String → Result Selector) → Result (Dict String String) → Result (Dict String Selector)
  all_decoded decode (failure err) = failure err
  all_decoded decode (success kvs) = decode_all decode kvs []

  unfoldable pub get_selectors : (String → Result Selector) → E → Result (Dict String Selector)
  get_selectors decode s = all_decoded decode (etcd.get_prefix s "slt/")
