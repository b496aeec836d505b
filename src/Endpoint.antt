-- ===== src/Endpoint.antt =====
-- pkg/yapr/core/types/types.go: endpoints, their text form and their comparison.
pub mod Print
use yapr.Prelude.{
  ℕ, String, ◌≡◌, ◌↔◌, Bool, true, false, ◌&&◌, List, [], ◌∷◌, Option, none, some, arith, Eq, ◌==◌,
  nat_eq, string_eq, ==_iff,
}
use yapr.Text.{concat}
use yapr.Text.Split.{split}
use yapr.Text.Decimal.{ℤ, format, atoi, uint32}

pub record Endpoint : Type 0 where
  pub ip : String
  pub pod : String
  pub port : ℕ

-- `e.String()`: `fmt.Sprintf("%s#%s#%d", e.IP, e.Pod, e.Port)`
unfoldable pub to_string : Endpoint → String
to_string e = concat e.ip (concat "#" (concat e.pod (concat "#" (format e.port))))

abbrev with_port : String → String → Option ℤ → Option Endpoint
with_port ip pod none = none
with_port ip pod (some i) = some (record { ip = ip; pod = pod; port = uint32 i })

abbrev from_parts : List String → Option Endpoint
from_parts (ip ∷ pod ∷ port ∷ []) = with_port ip pod (atoi port)
from_parts _ = none

unfoldable pub endpoint_from_string : String → Option Endpoint
unfolding split atoi
endpoint_from_string s = from_parts (split b'#' s)

-- The address alone is compared: not the pod.
abbrev pub equal_endpoints : Option Endpoint → Option Endpoint → Bool
equal_endpoints none none = true
equal_endpoints none (some e) = false
equal_endpoints (some e) none = false
equal_endpoints (some d) (some e) = d.ip == e.ip && d.port == e.port

-- Go's `==` on endpoints as keys of maps: all fields.
abbrev pub endpoint_beq : Endpoint → Endpoint → Bool
endpoint_beq d e = d.ip == e.ip && d.pod == e.pod && d.port == e.port

pub endpoint_beq_iff : (d e : Endpoint) → (endpoint_beq d e ≡ true) ↔ (d ≡ e)
endpoint_beq_iff d e = ground (arith, ==_iff d.ip e.ip, ==_iff d.pod e.pod, ==_iff d.port e.port)

instance abbrev pub endpoint_eq : Eq Endpoint
endpoint_eq = record { same = endpoint_beq; same_iff = endpoint_beq_iff }
