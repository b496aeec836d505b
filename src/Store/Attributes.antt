-- ===== src/Store/Attributes.antt =====
-- `SetEndpointAttribute` of pkg/yapr/core/store/impl/impl.go: the script that merges an attribute into
-- the hash of an endpoint, on decoded attributes. A nil field is left out of the JSON text.
pub mod Reported
use yapr.Prelude.{
  String, List, [], ◌∷◌, ◌++◌, Option, none, some, or_default, ◌≡◌, refl, ◌∙◌, arith, ◌==◌,
  string_eq, if◌then◌else◌, ◌&&◌, ==_refl,
}
use yapr.Prelude.Dict.{Dict}
use yapr.Endpoint.{Endpoint, to_string}
use yapr.Text.{concat}
use yapr.Types.{AttributeInSelector}
use yapr.Store.Routes.{hget, hset, hget-hset}

abbrev pub over : {A : Type 0} → Option A → Option A → Option A
over none former = former
over (some a) former = some a

abbrev pub no_attribute : AttributeInSelector
no_attribute = record { weight = none; rps = none; deadline = none }

-- the loop of the script: a field that is set goes over the former one
abbrev pub merged : AttributeInSelector → AttributeInSelector → AttributeInSelector
merged new former = record {
  weight = over new.weight former.weight;
  rps = over new.rps former.rps;
  deadline = over new.deadline former.deadline;
}

-- A message of the channel "_attr_change".
pub record AttributeChangeNtf : Type 0 where
  pub selector : String
  pub endpoint : String
  pub attribute : AttributeInSelector

-- The hashes by their names, and the messages so far.
pub record Hashes : Type 0 where
  pub fields : Dict String (Dict String AttributeInSelector)
  pub published : List AttributeChangeNtf

abbrev pub attribute_key : Endpoint → String
attribute_key e = concat "_attr_" (to_string e)

unfoldable pub set_endpoint_attribute : Hashes → Endpoint → String → AttributeInSelector → Hashes
set_endpoint_attribute h e selector new =
    let result = merged new (or_default (hget h.fields (attribute_key e) selector) no_attribute) in
    let message : AttributeChangeNtf = record {
      selector = selector;
      endpoint = to_string e;
      attribute = result;
    } in
    record h {
      fields = hset h.fields (attribute_key e) selector result;
      published = h.published ++ message ∷ [];
    }

set_endpoint_attribute-get :
    (h : Hashes) (e d : Endpoint) (selector name : String) (new : AttributeInSelector)
    → hget (set_endpoint_attribute h e selector new).fields (attribute_key d) name ≡ (
        if attribute_key e == attribute_key d && selector == name
        then some (merged new (or_default (hget h.fields (attribute_key e) selector) no_attribute))
        else hget h.fields (attribute_key d) name)
unfolding set_endpoint_attribute
set_endpoint_attribute-get h e d selector name new =
    hget-hset h.fields (attribute_key e) selector (attribute_key d) name
      (merged new (or_default (hget h.fields (attribute_key e) selector) no_attribute))

over_assoc : {A : Type 0} → (a b c : Option A) → over a (over b c) ≡ over (over a b) c
over_assoc none b c = refl
over_assoc (some a) b c = refl

merged_assoc : (a b c : AttributeInSelector) → merged a (merged b c) ≡ merged (merged a b) c
merged_assoc a b c =
    rw
      (
        over_assoc a.weight b.weight c.weight,
        over_assoc a.rps b.rps c.rps,
        over_assoc a.deadline b.deadline c.deadline,
      )
      refl

-- After two reports on an endpoint in a selector, the stored attribute has for each field the value of
-- the last report that has the field, or else the former one, another endpoint or selector keeps
-- its own, and two messages are published, the last of them with the stored attribute.
pub set_endpoint_attribute_twice :
    (h : Hashes) (e d : Endpoint) (selector name : String) (first second : AttributeInSelector)
    → let former = or_default (hget h.fields (attribute_key e) selector) no_attribute in
      let h' =
        set_endpoint_attribute (set_endpoint_attribute h e selector first) e selector second in
      let stored = merged (merged second first) former in
      (hget h'.fields (attribute_key d) name ≡ (
        if attribute_key e == attribute_key d && selector == name
        then some stored
        else hget h.fields (attribute_key d) name))
      × ((m : AttributeChangeNtf) × (h'.published
            ≡ (h.published ++ m ∷ [])
              ++ record { selector = selector; endpoint = to_string e; attribute = stored } ∷ []))
unfolding set_endpoint_attribute
set_endpoint_attribute_twice h e d selector name first second = (
  ground (arith, again, kept, joined),
  (
    record { selector = selector; endpoint = to_string e; attribute = merged first former },
    rw joined refl,
  ),
)
  where
    h₁ : Hashes
    h₁ = set_endpoint_attribute h e selector first

    former : AttributeInSelector
    former = or_default (hget h.fields (attribute_key e) selector) no_attribute

    first_stored : hget h₁.fields (attribute_key e) selector ≡ some (merged first former)
    first_stored =
        set_endpoint_attribute-get h e e selector selector first
        ∙ ground (arith, ==_refl (attribute_key e), ==_refl selector)

    joined :
        merged second (or_default (hget h₁.fields (attribute_key e) selector) no_attribute)
        ≡ merged (merged second first) former
    joined = rw first_stored (merged_assoc second first former)

    again : hget (set_endpoint_attribute h₁ e selector second).fields (attribute_key d) name ≡ (
        if attribute_key e == attribute_key d && selector == name
        then some
            (merged second (or_default (hget h₁.fields (attribute_key e) selector) no_attribute))
        else hget h₁.fields (attribute_key d) name)
    again = set_endpoint_attribute-get h₁ e d selector name second

    kept : hget h₁.fields (attribute_key d) name ≡ (
        if attribute_key e == attribute_key d && selector == name
        then some (merged first former)
        else hget h.fields (attribute_key d) name)
    kept = set_endpoint_attribute-get h e d selector name first
