-- ===== src/Store/Routes.antt =====
-- The custom routes of pkg/yapr/core/store/impl/impl.go: the Redis script of `SetCustomRoute`,
-- `GetCustomRoute` and `RemoveCustomRoute`. A Redis call that fails returns its error and is `down`.
-- Times are in thousandths of a second; a deadline is an int64.
pub mod Swap
use yapr.Prelude.{
  ◌≡◌, arith, ==_iff, ℕ, zero, suc, ◌+◌, ◌-◌, String, Bool, true, false, List, [], ◌∷◌, Option,
  none, some, or_default, ◌==◌, string_eq, leb, ltb, if◌then◌else◌, not, ◌&&◌,
}
use yapr.Prelude.Dict.{Dict, lookup, insert, delete, lookup-insert}
use yapr.Endpoint.{Endpoint, to_string, endpoint_from_string}
use yapr.Errcode.{Error, coded, Result, success, failure, err_no_custom_route}
use yapr.Text.Decimal.{ℤ, pos, negsuc}

-- The hashes `_end_point_<selector>` and `_ddl_<selector>`, by selector.
pub record Routes : Type 0 where
  pub endpoints : Dict String (Dict String String)
  pub deadlines : Dict String (Dict String ℤ)

-- `HGET` and `HSET`
abbrev pub hget : {V : Type 0} → Dict String (Dict String V) → String → String → Option V
hget hashes table field = lookup field (or_default (lookup table hashes) [])

abbrev pub hset :
    {V : Type 0} → Dict String (Dict String V) → String → String → V → Dict String (Dict String V)
hset hashes table field value =
    insert table (insert field value (or_default (lookup table hashes) [])) hashes

pub hget-hset :
    {V : Type 0}
    → (hashes : Dict String (Dict String V)) (table field table' field' : String) (value : V)
    → hget (hset hashes table field value) table' field'
      ≡ (if table == table' && field == field' then some value else hget hashes table' field')
hget-hset hashes table field table' field' value =
    let inner = lookup-insert field field' value (or_default (lookup table hashes) []) in
    let outer =
      lookup-insert table table' (insert field value (or_default (lookup table hashes) []))
        hashes in
    ground (arith, inner, outer, ==_iff table table', ==_iff field field')

-- A value of the script: Redis turns a missing field into false.
pub data LuaValue : Type 0 where
  lua_nil lua_false : LuaValue
  lua_text : String → LuaValue

abbrev pub from_redis : Option String → LuaValue
from_redis none = lua_false
from_redis (some s) = lua_text s

abbrev minus : ℕ → ℕ → ℤ
minus a b = if ltb a b then negsuc (b - a - 1) else pos (a - b)

-- A timeout of 0 is a deadline of -1.
abbrev pub deadline_at : ℕ → ℤ → ℤ
deadline_at now (pos zero) = negsuc 0
deadline_at now (pos (suc n)) = pos (now + suc n)
deadline_at now (negsuc n) = minus now (suc n)

-- `existingDDL > 0 and currentTimeMillis >= existingDDL`
abbrev pub is_past : ℕ → ℤ → Bool
is_past now (pos zero) = false
is_past now (pos (suc n)) = leb (suc n) now
is_past now (negsuc n) = false

-- `existing`, nil if its deadline has passed; a missing deadline is 1
abbrev pub unexpired : ℕ → LuaValue → Option ℤ → LuaValue
unexpired now lua_nil ddl = lua_nil
unexpired now existing ddl = if is_past now (or_default ddl (pos 1)) then lua_nil else existing

-- `existing ~= nil and existing ~= old`
abbrev pub differs : LuaValue → String → Bool
differs lua_nil old = false
differs lua_false old = true
differs (lua_text s) old = not (s == old)

-- The script: the hashes after it, and what it returns.
unfoldable pub set_script : ℕ → Routes → String → String → String → String → ℤ → Routes × LuaValue
set_script now r selector value endpoint old timeout =
    let existing =
      unexpired now (from_redis (hget r.endpoints selector value))
        (hget r.deadlines selector value) in
    let written = record r {
      endpoints = hset r.endpoints selector value endpoint;
      deadlines = hset r.deadlines selector value (deadline_at now timeout);
    } in
    if differs existing old then (r, existing) else (written, lua_nil)

abbrev pub old_text : Option Endpoint → String
old_text none = ""
old_text (some e) = to_string e

-- Redis has one reply for false and for nil, `redis.Nil`: the route counts as set.
abbrev pub reply : LuaValue → Result (Option Endpoint)
reply (lua_text s) = success (endpoint_from_string s)
reply lua_nil = success none
reply lua_false = success none

unfoldable pub set_custom_route :
    ℕ
    → Routes
    → String
    → String
    → Endpoint
    → Option Endpoint
    → ℤ
    → Routes × Result (Option Endpoint)
set_custom_route now r selector value endpoint old timeout =
    let (r', result) =
      set_script now r selector value (to_string endpoint) (old_text old) timeout in
    (r', reply result)

abbrev pub found_route : Option String → Result (Option Endpoint)
found_route none = failure (coded err_no_custom_route)
found_route (some s) =
    if s == "" then failure (coded err_no_custom_route) else success (endpoint_from_string s)

unfoldable pub get_custom_route : Routes → String → String → Result (Option Endpoint)
get_custom_route r selector value = found_route (hget r.endpoints selector value)

abbrev without :
    Dict String (Dict String String)
    → String
    → String
    → Option (Dict String String)
    → Dict String (Dict String String)
without hashes selector value none = hashes
without hashes selector value (some routes) = insert selector (delete value routes) hashes

unfoldable pub remove_custom_route : Routes → String → String → Routes
remove_custom_route r selector value = record r {
  endpoints = without r.endpoints selector value (lookup selector r.endpoints);
}
