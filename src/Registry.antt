-- ===== src/Registry.antt =====
-- pkg/yapr/core/service.go, strategy.go, and `GetSelector` and `GetRouter` of selector.go and
-- router.go: the process's tables, filled from the store at the first use.
use yapr.Prelude.{
  String, Option, none, some, ◌≡◌, ◌⊎◌, refl, ap, string_eq, arith, Option-cases, inl, inr, ==_refl,
}
use yapr.Prelude.Dict.{Dict, lookup, insert, lookup-insert}
use yapr.Errcode.{
  Error, coded, ErrWithCode, err_service_not_found, err_selector_not_found, err_unknown_strategy,
  Result, success, failure,
}
use yapr.Types.{Router, Selector}
use yapr.Service.{Service}

-- A table that is nil until the first call.
abbrev pub Table : Type 0 → Type 0
Table V = Option (Dict String V)

abbrev find : {V : Type 0} → ErrWithCode → Dict String V → String → Result V
find missing table name = elim (lookup name table) [
  | none ↦ failure (coded missing)
  | some v ↦ success v
]

-- The table after the call, and the result; `loaded` is what the store returns.
abbrev find_loaded :
    {V : Type 0} → ErrWithCode → Result (Dict String V) → Table V → String → Table V × Result V
find_loaded missing loaded (some table) name = (some table, find missing table name)
find_loaded missing (success table) none name = (some table, find missing table name)
find_loaded missing (failure err) none name = (none, failure err)

unfoldable pub get_service :
    Result (Dict String Service) → Table Service → String → Table Service × Result Service
get_service loaded services name = find_loaded err_service_not_found loaded services name

-- The state that a selector starts with stands beside its settings, as a parameter.
unfoldable pub get_selector :
    {V : Type 0} → Result (Dict String V) → Table V → String → Table V × Result V
get_selector loaded selectors name = find_loaded err_selector_not_found loaded selectors name

abbrev keep_router :
    Dict String Router → String → Result Router → Dict String Router × Result Router
keep_router routers name (success router) = (insert name router routers, success router)
keep_router routers name (failure err) = (routers, failure err)

abbrev kept_or_stored :
    (String → Result Router)
    → Dict String Router
    → String
    → Option Router
    → Dict String Router × Result Router
kept_or_stored stored routers name none = keep_router routers name (stored name)
kept_or_stored stored routers name (some router) = (routers, success router)

-- `stored` is the store's `GetRouter`.
unfoldable pub get_router :
    (String → Result Router) → Dict String Router → String → Dict String Router × Result Router
get_router stored routers name = kept_or_stored stored routers name (lookup name routers)

-- A builder for each strategy that is registered.
unfoldable pub get_strategy : {S : Type 0} → Dict String (Selector → Result S) → Selector → Result S
get_strategy builders selector = elim (lookup selector.strategy builders) [
  | none ↦ failure (coded err_unknown_strategy)
  | some build ↦ build selector
]

Result-cases :
    (r : Result Router) → ((a : Router) × (r ≡ success a)) ⊎ ((e : Error) × (r ≡ failure e))
Result-cases (success a) = inl (a, refl)
Result-cases (failure e) = inr (e, refl)

inserted :
    (name : String) (router : Router) (routers : Dict String Router)
    → lookup name (insert name router routers) ≡ some router
inserted name router routers = ground (arith, lookup-insert name name router routers, ==_refl name)

-- Once `GetRouter` has returned a router of a name, it returns the same one for that name, whatever
-- the store has by then, and it leaves its table as it is.
pub get_router-again :
    (stored stored' : String → Result Router) (routers routers' : Dict String Router)
    (name : String) (router : Router)
    → get_router stored routers name ≡ (routers', success router)
    → get_router stored' routers' name ≡ (routers', success router)
unfolding get_router
get_router-again stored stored' routers routers' name router h =
    ap (kept_or_stored stored' routers' name) known
  where
    known : lookup name routers' ≡ some router
    known = elim (Option-cases (lookup name routers)) [
      | inl unknown ↦ elim (Result-cases (stored name)) [
        | inl (found, is) ↦ ground (arith, inserted name found routers, rw (unknown, is) at h)
        | inr (err, is) ↦ absurd (ground (arith, rw (unknown, is) at h))
      ]
      | inr (kept, is) ↦ ground (arith, is, rw is at h)
    ]
