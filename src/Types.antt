-- ===== src/Types.antt =====
-- pkg/yapr/core/types/types.go: the configuration and the attributes. A Go pointer is an `Option`,
-- a map that is nil is the empty one, and a span of time is counted in thousandths of a second. A
-- request's `Timeout` channel is an event of its route, and a router's `Direct` is read by nothing.
use yapr.Prelude.{ℕ, String, Bool, List, Option, none, some, leb}
use yapr.Prelude.Dict.{Dict}
use yapr.Text.Decimal.{ℤ, pos}
use yapr.Endpoint.{Endpoint}
use yapr.Go.{Go, ok, panic, deadlock, nil_dereference}

pub record MatchTarget : Type 0 where
  pub uri : String
  pub port : ℕ
  pub headers : Dict String String

pub record CommonAttribute : Type 0 where
  pub available : Bool

pub record AttributeInSelector : Type 0 where
  pub weight : Option ℕ
  pub rps : Option ℕ
  pub deadline : Option ℤ

-- What a service keeps for an endpoint.
pub record Attributes : Type 0 where
  pub common : CommonAttribute
  pub in_selector : Dict String AttributeInSelector

-- What one selector sees of an endpoint: the second part is a pointer that may be nil.
pub record Attribute : Type 0 where
  pub common : CommonAttribute
  pub in_selector : Option AttributeInSelector

pub data BufferType : Type 0 where
  buffer_none buffer_lru : BufferType
  other_buffer : String → BufferType

pub data RuleError : Type 0 where
  rule_default no_endpoint unavailable rps_limit : RuleError

pub data Solution : Type 0 where
  retry pass block throw panics : Solution
  other_solution : String → Solution

pub record ErrorHandler : Type 0 where
  pub solution : Solution
  pub times : Option ℕ
  pub interval : Option ℕ
  pub timeout : Option ℕ
  pub message : Option String
  pub code : Option ℕ

pub record Matcher : Type 0 where
  pub uri : String
  pub port : ℕ
  pub headers : Dict String String

pub record Rule : Type 0 where
  pub matchers : List Matcher
  pub selector : String
  pub catch : RuleError → Option ErrorHandler

pub record Router : Type 0 where
  pub name : String
  pub rules : List Rule

pub record Selector : Type 0 where
  pub name : String
  pub service : String
  pub port : ℕ
  pub headers : Dict String String
  pub strategy : String
  pub max_requests : Option ℕ
  pub key : String
  pub cache_type : BufferType
  pub cache_size : Option ℕ
  pub script : String

abbrev pub is_good : CommonAttribute → Bool
is_good c = c.available

-- `attribute.Weight`, `attribute.RPS`: a panic if the part is nil.
abbrev pub weight_of : Attribute → Go (Option ℕ)
weight_of a = elim a.in_selector [ none ↦ panic nil_dereference | some i ↦ ok i.weight ]

abbrev pub rps_of : Attribute → Go (Option ℕ)
rps_of a = elim a.in_selector [ none ↦ panic nil_dereference | some i ↦ ok i.rps ]

abbrev pub EndpointFilter : Type 0
EndpointFilter = Selector → Endpoint → Attribute → Go Bool

unfoldable pub good_endpoint_filter : EndpointFilter
good_endpoint_filter selector endpoint attribute = ok (is_good attribute.common)

abbrev within : Option ℕ → Option ℕ → Bool
within none limit = Bool.true
within (some rps) none = Bool.true
within (some rps) (some limit) = leb rps limit

unfoldable pub fuse_endpoint_filter : EndpointFilter
fuse_endpoint_filter selector endpoint attribute = elim (rps_of attribute) [
  | ok rps ↦ ok (within rps selector.max_requests)
  | panic p ↦ panic p
  | deadlock ↦ deadlock
]

abbrev pub new_default_attr : AttributeInSelector
new_default_attr = record { weight = some 1; rps = none; deadline = some (pos 0) }
