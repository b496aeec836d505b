-- ===== src/Errcode.antt =====
-- pkg/yapr/core/errcode/errcode.go: errors with a code. An error from elsewhere (the store, Lua,
-- the network) is known by its message only.
pub mod Chain
use yapr.Prelude.{ℕ, String, Bool, false, [], ◌==◌, nat_eq}
use yapr.Prelude.Dict.{Dict}

pub record ErrWithCode : Type 0 where
  pub code : ℕ
  pub fields : Dict String String
  pub msg : String

pub data Error : Type 0 where
  coded : ErrWithCode → Error
  other : String → Error

abbrev pub new : ℕ → String → ErrWithCode
new code msg = record { code = code; fields = []; msg = msg }

abbrev pub with_data : ErrWithCode → Dict String String → ErrWithCode
with_data err fields = record { code = err.code; fields = fields; msg = err.msg }

-- `errors.Is(err, target)` for a target of this package: the codes are compared.
abbrev pub is : Error → ErrWithCode → Bool
is (coded e) target = e.code == target.code
is (other m) target = false

abbrev pub err_context_canceled : ErrWithCode
err_context_canceled = new 1001 "context canceled"

abbrev pub err_router_not_found : ErrWithCode
err_router_not_found = new 1003 "router not found"

abbrev pub err_selector_not_found : ErrWithCode
err_selector_not_found = new 1004 "selector not found"

abbrev pub err_service_not_found : ErrWithCode
err_service_not_found = new 1005 "service not found"

abbrev pub err_no_endpoint_available : ErrWithCode
err_no_endpoint_available = new 1006 "no endpoint available"

abbrev pub err_endpoint_unavailable : ErrWithCode
err_endpoint_unavailable = new 1007 "bad endpoint"

abbrev pub err_no_rule_matched : ErrWithCode
err_no_rule_matched = new 1008 "no rule matched"

abbrev pub err_no_custom_route : ErrWithCode
err_no_custom_route = new 1009 "no custom route"

abbrev pub err_no_key_available : ErrWithCode
err_no_key_available = new 1010 "no key available (for stateful routing)"

abbrev pub err_no_value_available : ErrWithCode
err_no_value_available = new 1011 "no value available (for stateful routing)"

abbrev pub err_cache_not_found : ErrWithCode
err_cache_not_found = new 1012 "cache not found"

abbrev pub err_lua_index_out_of_range : ErrWithCode
err_lua_index_out_of_range = new 1015 "lua index out of range"

abbrev pub err_wrong_endpoint : ErrWithCode
err_wrong_endpoint = new 1017 "wrong endpoint"

abbrev pub err_metadata_not_found : ErrWithCode
err_metadata_not_found = new 1018 "metadata not found"

abbrev pub err_invalid_metadata : ErrWithCode
err_invalid_metadata = new 1019 "invalid metadata"

abbrev pub err_max_retries : ErrWithCode
err_max_retries = new 1020 "max retries"

abbrev pub err_unknown_strategy : ErrWithCode
err_unknown_strategy = new 1021 "unknown strategy"

abbrev pub err_service_already_registered : ErrWithCode
err_service_already_registered = new 1022 "service already registered"

abbrev pub err_block_timeout : ErrWithCode
err_block_timeout = new 1023 "block timeout"

abbrev pub err_endpoint_rps_limit : ErrWithCode
err_endpoint_rps_limit = new 1024 "endpoint rps limit"

-- A result and an error, one of which is nil.
pub data Result {ℓ} (A : Type ℓ) : Type ℓ where
  success : A → Result A
  failure : Error → Result A
